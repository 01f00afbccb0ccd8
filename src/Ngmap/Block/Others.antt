-- ===== src/Ngmap/Block/Others.antt =====
-- What a block leaves alone while it holds the lock.
use mathlib.Core.Path.{subst}
use nodeguard.Prelude.{
  Bool, if◌then◌else◌, ◌==◌, ℕ, ◌≡◌, ◌≢◌, refl, sym, ◌∙◌, true, false, Option, none, some, List,
  String, arith, inr,
}
use nodeguard.Net.{Network, IsNetwork}
use nodeguard.Ngmap.Pack.{Bytes, unpack_pair, pack_pair}
use nodeguard.Ngmap.Hex.{bytes_to_args}
use nodeguard.Ngmap.Keys.{key_bytes, key_args-injective}
use nodeguard.Ngmap.Exec.{
  Exec, ok, raised, Error, runtime, timeout, system_exit, already_permanent, pure, die_if, or_raise,
  ◌>>=◌, attempt, struct_error,
}
use nodeguard.Ngmap.Exec.Inversion.{bind-state}
use nodeguard.Ngmap.Exec.Respects.{
  Order, Respects, Respects-pure, Respects-raise, Respects-attempt, Respects-if, Respects-bind,
  Respects-or_raise, Respects-die_if, bind_at, attempt_at,
}
use nodeguard.Ngmap.Host.{Host, Laws}
use nodeguard.Ngmap.Maps.{map_path, mono_ns, lookup_value, update_map}
use nodeguard.Ngmap.Maps.Reads.{lookup_value-Respects, mono_ns-Respects}
use nodeguard.Ngmap.Maps.Writes.{kept_at, reading_kept, update_map-keeps}
use nodeguard.Ngmap.Live.{is_contained, candidates_of, purge_contained_expired}
use nodeguard.Ngmap.Live.Purge.{Lasts}
use nodeguard.Ngmap.Live.Corpses.{purge-keeps_outside, purge-keeps_lasting}
use nodeguard.Ngmap.Block.{
  BlockArgs, carried_hits, purge_after, purge_error, purged_count, write_block, is_wide,
}

module _ (h : Host) where
  purge_error-Respects :
      (o : Order h.World) (net : Network) (e : Error) → Respects o (purge_error h net e)
  unfolding purge_error
  purge_error-Respects o net (runtime m) = Respects-pure _
  purge_error-Respects o net (timeout m) = Respects-pure _
  purge_error-Respects o net e = Respects-raise e

  module _ (holds : h.World → String → List String → Option (List String))
      (laws : Laws h holds) where
    carried_hits-keeps :
        (a : BlockArgs) (cur : Option Bytes) (p : String) (k : List String)
        → Respects (kept_at h holds p k) (carried_hits h a cur)
    unfolding carried_hits
    carried_hits-keeps a none p k = Respects-pure 0
    carried_hits-keeps a (some b) p k = Respects-bind _ _ (Respects-or_raise _ _) λ x.
        Respects-bind _ _
          (Respects-if (x.0 == 0) _ _ (Respects-pure true) (
            Respects-bind _ _ (mono_ns-Respects h (reading_kept h holds laws p k))
              λ now. Respects-pure _))
          λ live.
            Respects-if live _ (pure 0)
              (Respects-bind _ _ (Respects-die_if _ _) λ _. Respects-pure _) (Respects-pure 0)

    -- On a host that meets the laws, a block of a well-formed network changes, while it holds the lock,
    -- no entry of another well-formed network that is not strictly inside
    -- its own, whether it succeeds or not.
    pub write_block-keeps_outside :
        (a : BlockArgs) (net m : Network) (expiry : ℕ) (p : String) (w : h.World)
        → IsNetwork net
        → IsNetwork m
        → net ≢ m
        → is_contained h net m ≡ false
        → holds (write_block h a net expiry w).1 p (bytes_to_args (key_bytes m))
          ≡ holds w p (bytes_to_args (key_bytes m))
    unfolding write_block purge_after purged_count
    write_block-keeps_outside a net m expiry p w hn hm ne out = kept.at w
      where
        order : Order h.World
        order = kept_at h holds p (bytes_to_args (key_bytes m))

        after_write : Respects (kept_at h holds p (bytes_to_args (key_bytes m))) (purge_after h net)
        after_write =
            Respects-if (is_wide net) _ _
              (Respects-attempt _ _ _
                (purge-keeps_outside h holds laws (map_path net "block") net m p hm out)
                (λ n. Respects-pure _)
                (purge_error-Respects (kept_at h holds p (bytes_to_args (key_bytes m))) net))
              (Respects-pure _)

        kept :
            Respects (kept_at h holds p (bytes_to_args (key_bytes m))) (write_block h a net expiry)
        kept =
            Respects-bind _ _ (lookup_value-Respects h (reading_kept h holds laws p _) _ _) λ cur.
              Respects-bind _ _ (carried_hits-keeps a cur p _) λ hits.
                Respects-bind _ _ (Respects-or_raise _ _) λ value.
                  Respects-bind _ _
                    (update_map-keeps h holds laws (map_path net "block") (key_bytes net) value p _
                      (inr (λ e. ne (key_args-injective net m hn hm e))))
                    λ _. after_write

    -- The part of a block before its purge.
    unfoldable pub write_entry : BlockArgs → Network → ℕ → Exec h.World (Unit {0})
    write_entry a net expiry = do
      cur ← lookup_value h (map_path net "block") (key_bytes net)
      hits ← carried_hits h a cur
      value ← or_raise struct_error (pack_pair expiry hits)
      update_map h (map_path net "block") (key_bytes net) value

    -- The clock reading by which the purge of the block decides: it follows the purge's dump.
    unfoldable pub purge_clock : BlockArgs → Network → ℕ → h.World → ℕ
    purge_clock a net expiry w =
        let (_, u) = candidates_of h (map_path net "block") none (write_entry a net expiry w).1 in
        (h.monotonic_ns u).0

    reading_at : (x : h.World) (now : ℕ) → (mono_ns h x).0 ≡ ok now → (h.monotonic_ns x).0 ≡ now
    unfolding mono_ns
    reading_at x now e = cc

    -- The purge leaves an entry that has not expired at its clock reading.
    purge_after-lasting :
        (net : Network) (p : String) (k : List String) (u : h.World)
        → Lasts (h.monotonic_ns (candidates_of h (map_path net "block") none u).1).0 (holds u p k)
        → holds (purge_after h net u).1 p k ≡ holds u p k
    unfolding purge_after purged_count pure
    purge_after-lasting net p k u lasts = by_width (is_wide net)
      where
        by_width :
            (wide : Bool)
            → holds
                ((if wide
                    then attempt
                        (purge_contained_expired h (map_path net "block") net none)
                        (purged_count h net)
                        (purge_error h net)
                    else purged_count h net 0)
                  u).1
                p
                k
              ≡ holds u p k
        by_width true =
            attempt_at (kept_at h holds p k) _ _ _ u
              (purge-keeps_lasting h holds laws (map_path net "block") net none p k u
                λ now read. subst (λ n. Lasts n (holds u p k)) (reading_at _ now read) lasts)
              (λ n _. refl) (λ e _. (purge_error-Respects (kept_at h holds p k) net e).at _)
        by_width false = refl

    -- On a host that meets the laws, a block changes, while it holds the lock, no entry under another
    -- key that is permanent or not yet expired at the clock reading by which its purge decides,
    -- wherever its network lies, and whether the block succeeds or not.
    pub write_block-keeps_lasting :
        (a : BlockArgs) (net : Network) (expiry : ℕ) (p : String) (k : List String) (w : h.World)
        → bytes_to_args (key_bytes net) ≢ k
        → Lasts (purge_clock a net expiry w) (holds w p k)
        → holds (write_block h a net expiry w).1 p k ≡ holds w p k
    unfolding write_block purge_clock write_entry
    write_block-keeps_lasting a net expiry p k w ne lasts =
        bind_at o looking _ w ((lookup_value-Respects h (reading_kept h holds laws p k) _ _).at w)
          λ cur e.
            bind_at o (carried_hits h a cur) _ _ ((carried_hits-keeps a cur p k).at _) λ hits e₂.
              bind_at o (or_raise struct_error (pack_pair expiry hits)) _ _
                ((Respects-or_raise {W = h.World} {o = o} struct_error (pack_pair expiry hits)).at
                  _)
                λ value e₃.
                  bind_at o (update_map h (map_path net "block") (key_bytes net) value) _ _
                    ((writing value).at _)
                    λ u e₄. purge_after-lasting net p k _ (
                      lasts_at _ (
                        bind-state looking _ w cur e
                        ∙ bind-state (carried_hits h a cur) _ _ hits e₂
                        ∙ bind-state (or_raise struct_error (pack_pair expiry hits)) _ _ value e₃))
      where
        o : Order h.World
        o = kept_at h holds p k

        looking : Exec h.World (Option Bytes)
        looking = lookup_value h (map_path net "block") (key_bytes net)

        writing :
            (value : Bytes)
            → Respects
                (kept_at h holds p k)
                (update_map h (map_path net "block") (key_bytes net) value)
        writing value =
            update_map-keeps h holds laws (map_path net "block") (key_bytes net) value p k (inr ne)

        entry : Respects (kept_at h holds p k) (write_entry a net expiry)
        entry =
            Respects-bind _ _ (lookup_value-Respects h (reading_kept h holds laws p k) _ _) λ cur.
              Respects-bind _ _ (carried_hits-keeps a cur p k)
                λ hits. Respects-bind _ _ (Respects-or_raise _ _) λ value. writing value

        lasts_at :
            (x : h.World)
            → (write_entry a net expiry w).1 ≡ x
            → Lasts
                (h.monotonic_ns (candidates_of h (map_path net "block") none x).1).0
                (holds x p k)
        lasts_at x state =
            subst
              (λ y.
                Lasts (h.monotonic_ns (candidates_of h (map_path net "block") none y).1).0
                  (holds y p k))
              state (subst (Lasts (purge_clock a net expiry w)) (sym (entry.at w)) lasts)

    -- On a host that meets the laws, where the lookup finds a permanent entry and --i-mean-it is not
    -- given, the locked part of the block command raises `already_permanent`, and no entry of any map
    -- has changed.
    pub write_block-refuses_demotion :
        (a : BlockArgs) (net : Network) (expiry : ℕ) (w : h.World) (b : Bytes) (hits : ℕ)
        (p : String) (k : List String)
        → a.i_mean_it ≡ false
        → (lookup_value h (map_path net "block") (key_bytes net) w).0 ≡ ok (some b)
        → unpack_pair b ≡ some (0, hits)
        → ((write_block h a net expiry w).0 ≡ raised (system_exit already_permanent))
          × (holds (write_block h a net expiry w).1 p k ≡ holds w p k)
    unfolding write_block carried_hits ◌>>=◌ die_if
    write_block-refuses_demotion a net expiry w b hits p k unmeant e u =
        let kept =
          (lookup_value-Respects h (reading_kept h holds laws p k) (map_path net "block")
              (key_bytes net)).at
            w in
        (ground arith, ground arith)
