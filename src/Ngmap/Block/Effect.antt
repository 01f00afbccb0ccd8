-- ===== src/Ngmap/Block/Effect.antt =====
-- What a successful block leaves in the pinned maps.
use mathlib.Core.Path.{subst}
use nodeguard.Prelude.{
  ℕ, ◌+◌, ◌*◌, ◌^◌, ◌≡◌, ◌≢◌, sym, ap, ◌∙◌, false, Option, none, some, List, ◌++◌, String, arith,
  if◌then◌else◌, ltb, ◌==◌,
}
use nodeguard.Net.{Network, IsNetwork}
use nodeguard.Ngmap.Pack.{Bytes, le_bytes, pack_pair, unpack_pair, pack_pair-some}
use nodeguard.Ngmap.Hex.{bytes_to_args, args_to_bytes}
use nodeguard.Ngmap.Keys.{key_bytes}
use nodeguard.Ngmap.Exec.{ok, Error, runtime, timeout, struct_error, die_if, ◌>>=◌}
use nodeguard.Ngmap.Exec.Inversion.{>>=-eq-ok, or_raise-some}
use nodeguard.Ngmap.Exec.Respects.{
  Respects, Respects-pure, Respects-raise, Respects-attempt, Respects-if,
}
use nodeguard.Ngmap.Host.{Host, Laws, map_lookup, not_executable}
use nodeguard.Ngmap.Maps.{map_path, mono_ns, lookup_value}
use nodeguard.Ngmap.Maps.Writes.{kept_at, update_map-holds, lookup_value-some, lookup_value-none}
use nodeguard.Ngmap.Live.{is_contained}
use nodeguard.Ngmap.Live.Corpses.{purge-keeps_outside}
use nodeguard.Ngmap.Block.{
  BlockArgs, Blocked, carried_hits, purge_after, purge_error, purged_count, write_block, is_wide,
  cmd_block, expiry_of, check_protected, seconds,
}
use nodeguard.Ngmap.Block.Run.{Run, cmd_block-ok, some_inj}

-- The hit count that a new block starts with, from the entry that is there and the clock.
abbrev pub expected_hits : Option (ℕ × ℕ) → ℕ → ℕ
expected_hits none now = 0
expected_hits (some (expiry, hits)) now =
    if expiry == 0 then hits else if ltb now expiry then hits else 0

-- The expiry and the hit count in a value that a block map holds.
abbrev pub entry_in : Option (List String) → Option (ℕ × ℕ)
entry_in none = none
entry_in (some v) = elim (args_to_bytes v) [ none ↦ none | some b ↦ unpack_pair b ]

abbrev decoded : Option Bytes → Option (ℕ × ℕ)
decoded none = none
decoded (some b) = unpack_pair b

entry_in-some :
    (v : List String) (b : Bytes) → args_to_bytes v ≡ some b → entry_in (some v) ≡ unpack_pair b
entry_in-some v b e = ap (λ o. elim o [ none ↦ none | some c ↦ unpack_pair c ]) e

module _ (h : Host) where
  carried_hits-eq_expected :
      (a : BlockArgs) (cur : Option Bytes) (w : h.World) (hits : ℕ)
      → (carried_hits h a cur w).0 ≡ ok hits
      → hits ≡ expected_hits (decoded cur) (h.monotonic_ns w).0
  unfolding carried_hits ◌>>=◌ die_if mono_ns
  carried_hits-eq_expected a none w hits e = cc
  carried_hits-eq_expected a (some b) w hits e = ground arith

  module _ (holds : h.World → String → List String → Option (List String))
      (laws : Laws h holds) where
    not_contained_self : (net : Network) → is_contained h net net ≡ false
    unfolding is_contained
    not_contained_self net = ground arith

    -- The purge leaves the entry just written, whether it fails or not.
    purge_after-keeps_own :
        (net : Network) (p : String)
        → IsNetwork net
        → Respects (kept_at h holds p (bytes_to_args (key_bytes net))) (purge_after h net)
    unfolding purge_after purged_count purge_error
    purge_after-keeps_own net p hn =
        Respects-if (is_wide net) _ _
          (Respects-attempt _ _ _
            (purge-keeps_outside h holds laws (map_path net "block") net net p hn
              (not_contained_self net))
            (λ n. Respects-pure _) failing)
          (Respects-pure _)
      where
        failing :
            (e : Error)
            → Respects (kept_at h holds p (bytes_to_args (key_bytes net))) (purge_error h net e)
        failing (runtime m) = Respects-pure _
        failing (timeout m) = Respects-pure _
        failing e = Respects-raise e

    -- bpftool can be executed for the lookup of the network's entry.
    abbrev pub CanLookUp : Network → Type 0
    CanLookUp net =
        (u : h.World) (text : String)
        → (h.run (map_lookup (map_path net "block") (bytes_to_args (key_bytes net))) u).0
          ≢ not_executable text

    lookup_value-entry :
        (net : Network) (w : h.World) (cur : Option Bytes)
        → CanLookUp net
        → (lookup_value h (map_path net "block") (key_bytes net) w).0 ≡ ok cur
        → decoded cur ≡ entry_in (holds w (map_path net "block") (bytes_to_args (key_bytes net)))
    lookup_value-entry net w none runs e = sym (
        ap entry_in
          (lookup_value-none h holds laws (map_path net "block") (key_bytes net) w (runs w) e))
    lookup_value-entry net w (some b) runs e =
        let (v, there, bytes) =
          lookup_value-some h holds laws (map_path net "block") (key_bytes net) w b e in
        sym (ap entry_in there ∙ entry_in-some v b bytes)

    -- What the entry of the network is after the locked part of the command has returned.
    pub record Written (a : BlockArgs) (net : Network) (expiry : ℕ) (w : h.World) : Type 0 where
      pub hits : ℕ
      pub counted :
          hits
          ≡ expected_hits
              (entry_in (holds w (map_path net "block") (bytes_to_args (key_bytes net))))
              (h.monotonic_ns (lookup_value h (map_path net "block") (key_bytes net) w).1).0
      pub stored :
          holds
            (write_block h a net expiry w).1
            (map_path net "block")
            (bytes_to_args (key_bytes net))
          ≡ some (bytes_to_args (le_bytes 8 expiry ++ le_bytes 8 hits))

    pub write_block-Written :
        (a : BlockArgs) (net : Network) (expiry : ℕ) (w : h.World) {b : Blocked}
        → IsNetwork net
        → CanLookUp net
        → (write_block h a net expiry w).0 ≡ ok b
        → Written a net expiry w
    unfolding write_block
    write_block-Written a net expiry w {b} hn runs e =
        let p = >>=-eq-ok _ _ b w e in
        let q = >>=-eq-ok _ _ b _ p.second in
        let r = >>=-eq-ok _ _ b _ q.second in
        let s = >>=-eq-ok _ _ b _ r.second in
        let packed = or_raise-some struct_error (pack_pair expiry q.value) _ r.value r.first in
        record {
          hits = q.value;
          counted =
              subst
                (λ o.
                  q.value
                  ≡ expected_hits o
                      (h.monotonic_ns
                        (lookup_value h (map_path net "block") (key_bytes net) w).1).0)
                (lookup_value-entry net w p.value runs p.first)
                (carried_hits-eq_expected a p.value _ q.value q.first);
          stored =
              ap (λ x. holds x (map_path net "block") (bytes_to_args (key_bytes net)))
                (p.state ∙ q.state ∙ r.state ∙ s.state)
              ∙ (purge_after-keeps_own net (map_path net "block") hn).at _
              ∙ update_map-holds h holds laws (map_path net "block") (key_bytes net) r.value _
                  s.first
              ∙ ap (λ v. some (bytes_to_args v)) (pack_pair-some expiry q.value r.value packed);
        }

    -- The state in which the whole command asks for the lock.
    abbrev pub before_lock : BlockArgs → Network → h.World → h.World
    before_lock a net w = (expiry_of h a (check_protected h net w).1).1

    abbrev pub expected_expiry : BlockArgs → Network → h.World → ℕ
    expected_expiry a net w =
        if a.permanent
        then 0
        else (h.monotonic_ns (check_protected h net w).1).0 + seconds a.ttl * 10 ^ 9

    pub record Effect (a : BlockArgs) (net : Network) (w : h.World) : Type 0 where
      pub locked_part : Written a net (expected_expiry a net w) (h.lock (before_lock a net w))
      pub after :
          holds (cmd_block h a w).1 (map_path net "block") (bytes_to_args (key_bytes net))
          ≡ some
              (bytes_to_args (le_bytes 8 (expected_expiry a net w) ++ le_bytes 8 locked_part.hits))

    expiry_of-ok :
        (a : BlockArgs) (net : Network) (w : h.World) (t : ℕ)
        → (expiry_of h a (check_protected h net w).1).0 ≡ ok t
        → t ≡ expected_expiry a net w
    unfolding expiry_of ◌>>=◌ mono_ns
    expiry_of-ok a net w t e = ground arith

    -- On a host that meets the laws and can execute bpftool for the lookup, after a successful block of
    -- a target that is parsed to a well-formed network, the block map holds, under the network's key,
    -- the expiry that was asked for (0 if permanent, else the clock's reading plus the TTL in
    -- nanoseconds) and a hit count: that of the entry which the map held under the key when the lock
    -- was taken, if there was one and it was permanent or not expired at the clock reading after the
    -- lookup, and else 0.
    pub cmd_block-Effect :
        (a : BlockArgs) (net : Network) (w : h.World) (b : Blocked)
        → IsNetwork net
        → CanLookUp net
        → h.ip_network a.target ≡ some net
        → (cmd_block h a w).0 ≡ ok b
        → Effect a net w
    cmd_block-Effect a net w b hn runs target e =
        let run = cmd_block-ok h a w e in
        let same = some_inj (sym run.parsed ∙ target) in
        subst (λ n. Effect a n w) same
          (effect run (subst IsNetwork (sym same) hn) (subst CanLookUp (sym same) runs))
      where
        effect : (run : Run h a w b) → IsNetwork run.net → CanLookUp run.net → Effect a run.net w
        effect run wf can =
            let time = expiry_of-ok a run.net w run.expiry run.timed in
            let start = before_lock a run.net w in
            let returned =
              subst (λ t. (write_block h a run.net t (h.lock start)).0 ≡ ok b) time run.written in
            let written =
              write_block-Written a run.net (expected_expiry a run.net w) (h.lock start) wf can
                returned in
            record {
              locked_part = written;
              after =
                  ap (λ x. holds x (map_path run.net "block") (bytes_to_args (key_bytes run.net)))
                    (run.state
                      ∙ ap (λ t. h.unlock (write_block h a run.net t (h.lock start)).1) time)
                  ∙ laws.unlock_keeps _ _ _
                  ∙ written.stored;
            }
