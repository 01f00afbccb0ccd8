-- ===== src/Ngmap/Block/Run.antt =====
-- A successful run of the block command, taken apart.
use mathlib.Core.Path.{subst}
use nodeguard.Prelude.{
  ℕ, String, ◌≡◌, refl, sym, ◌∙◌, ap, Bool, true, false, some, List, ◌++◌, All, arith, ltb,
}
use nodeguard.Net.{Network, Address, IsNetwork, contains}
use nodeguard.Ngmap.Protect.{never_block}
use nodeguard.Ngmap.Protect.Sound.{Avoids}
use nodeguard.Ngmap.Exec.{ok, Refusal, expiry_past_u64, die, die_if, ◌>>=◌}
use nodeguard.Ngmap.Exec.Inversion.{>>=-eq-ok, die_if-ok}
use nodeguard.Ngmap.Host.{Host}
use nodeguard.Ngmap.Maps.{parse_net}
use nodeguard.Ngmap.Live.{allow_entries_live}
use nodeguard.Ngmap.Block.{
  check_args, check_protected, expiry_of, write_block, min_len, ttl_positive, u64_max, BlockArgs,
  Blocked, cmd_block,
}
use nodeguard.Ngmap.Block.Guards.{check_protected-IsClear}

-- What the arguments of an accepted block satisfy.
pub record IsAccepted (a : BlockArgs) (net : Network) : Type 0 where
  pub broad_is_meant : ltb net.prefixlen (min_len net) ≡ true → a.i_mean_it ≡ true
  pub permanent_is_meant : a.permanent ≡ true → a.i_mean_it ≡ true
  pub ttl_is_positive : a.permanent ≡ false → ttl_positive a.ttl ≡ true

pub some_inj : {A : Type 0} {x y : A} → some x ≡ some y → x ≡ y
some_inj e = cc

module _ (h : Host) where
  open h use {World, ip_network, lock, unlock}

  check_args-IsAccepted :
      (a : BlockArgs) (net : Network) (w : World) {u : Unit {0}}
      → (check_args h a net w).0 ≡ ok u
      → IsAccepted a net
  unfolding check_args ◌>>=◌ die_if
  check_args-IsAccepted a net w done = ground arith

  check_args-state : (a : BlockArgs) (net : Network) (w : World) → (check_args h a net w).1 ≡ w
  unfolding check_args ◌>>=◌ die_if
  check_args-state a net w = ground arith

  parse_net-ok :
      (text : String) (w : World) {n : Network}
      → (parse_net h text w).0 ≡ ok n
      → (ip_network text ≡ some n) × ((parse_net h text w).1 ≡ w)
  unfolding parse_net die
  parse_net-ok text w e = ground arith

  die_if-state : (t : Bool) (r : Refusal) (x : World) → (die_if t r x).1 ≡ x
  unfolding die_if
  die_if-state true r x = refl
  die_if-state false r x = refl

  -- The facts of a run that returned, in the order of the command's steps.
  pub record Run (a : BlockArgs) (w : World) (b : Blocked) : Type 0 where
    pub net : Network
    pub parsed : ip_network a.target ≡ some net
    pub accepted : IsAccepted a net
    pub guarded : (check_protected h net w).0 ≡ ok tt
    pub expiry : ℕ
    pub timed : (expiry_of h a (check_protected h net w).1).0 ≡ ok expiry
    pub fits : ltb u64_max expiry ≡ false
    pub written :
        (write_block h a net expiry (lock (expiry_of h a (check_protected h net w).1).1)).0 ≡ ok b
    pub state :
        (cmd_block h a w).1
        ≡ unlock (write_block h a net expiry (lock (expiry_of h a (check_protected h net w).1).1)).1

  pub cmd_block-ok :
      (a : BlockArgs) (w : World) {b : Blocked} → (cmd_block h a w).0 ≡ ok b → Run a w b
  unfolding cmd_block
  cmd_block-ok a w {b} done =
      let p = >>=-eq-ok _ _ b w done in
      let q = >>=-eq-ok _ _ b _ p.second in
      let r = >>=-eq-ok _ _ b _ q.second in
      let s = >>=-eq-ok _ _ b _ r.second in
      let t = >>=-eq-ok _ _ b _ s.second in
      let (found, kept) = parse_net-ok a.target w p.first in
      let here = check_args-state a p.value (parse_net h a.target w).1 ∙ kept in
      let after =
        die_if-state (ltb u64_max s.value) expiry_past_u64
          (expiry_of h a (check_protected h p.value w).1).1 in
      let timed' =
        subst (λ x. (expiry_of h a (check_protected h p.value x).1).0 ≡ ok s.value) here s.first in
      record {
        net = p.value;
        parsed = found;
        accepted = check_args-IsAccepted a p.value (parse_net h a.target w).1 q.first;
        guarded = subst (λ x. (check_protected h p.value x).0 ≡ ok tt) here r.first;
        expiry = s.value;
        timed = timed';
        fits = die_if-ok _ _ _ t.first;
        written =
            subst (λ x. (write_block h a p.value s.value (lock x)).0 ≡ ok b) after
              (subst
                (λ x.
                  (write_block h a p.value s.value (
                    lock
                      (die_if (ltb u64_max s.value) expiry_past_u64
                        (expiry_of h a (check_protected h p.value x).1).1).1)).0
                  ≡ ok b)
                here t.second);
        state =
            p.state
            ∙ q.state
            ∙ r.state
            ∙ s.state
            ∙ t.state
            ∙ ap
                (λ x.
                  unlock
                    (write_block h a p.value s.value (
                      lock
                        (die_if (ltb u64_max s.value) expiry_past_u64
                          (expiry_of h a (check_protected h p.value x).1).1).1)).1)
                here
            ∙ ap (λ x. unlock (write_block h a p.value s.value (lock x)).1) after;
      }

  -- A network that the block command accepts holds no address of a never-block range and none of a
  -- live allow entry, if its two reads of the allow maps saw the same list, and the parser of
  -- addresses returns well-formed networks.
  pub cmd_block-Avoids_protected :
      (a : BlockArgs) (live : List Network) (w : World) (b : Blocked) (n : Network)
      (address : Address)
      → ((text : String) (m : Network) → ip_network text ≡ some m → IsNetwork m)
      → (allow_entries_live h w).0 ≡ ok live
      → (allow_entries_live h (allow_entries_live h w).1).0 ≡ ok live
      → ip_network a.target ≡ some n
      → (cmd_block h a w).0 ≡ ok b
      → contains n address ≡ true
      → All (Avoids address) (never_block ++ live)
  cmd_block-Avoids_protected a live w b n address parses reads again target done inside =
      let run = cmd_block-ok a w done in
      check_protected-IsClear h n live w (parses a.target n target) reads again
        (subst (λ m. (check_protected h m w).0 ≡ ok tt) (some_inj (sym run.parsed ∙ target))
          run.guarded)
        address inside
