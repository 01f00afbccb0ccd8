-- ===== src/Ngmap/Live/Corpses.antt =====
-- `purge_contained_expired` of bin/ngmap.py as a whole: only expired entries strictly inside the
-- network just written can go.
use nodeguard.Prelude.{
  All-append, sym, ℕ, ◌≡◌, ◌∙◌, false, Option, none, List, [], ◌∷◌, String, All,
}
use nodeguard.Net.{Network, IsNetwork}
use nodeguard.Ngmap.Pack.{Bytes}
use nodeguard.Ngmap.Hex.{bytes_to_args}
use nodeguard.Ngmap.Keys.{key_bytes}
use nodeguard.Ngmap.Exec.{ok, pure}
use nodeguard.Ngmap.Exec.Ensures.{Ensures, Ensures-pure, Ensures-if, Ensures-bind, Ensures-then}
use nodeguard.Ngmap.Exec.Respects.{Respects, bind_at, Respects-bind}
use nodeguard.Ngmap.Host.{Host, Laws}
use nodeguard.Ngmap.Maps.{Value, mono_ns, is_expired}
use nodeguard.Ngmap.Maps.Reads.{mono_ns-Respects}
use nodeguard.Ngmap.Maps.Writes.{kept_at, reading_kept}
use nodeguard.Ngmap.Live.{
  purge_contained_expired, expired_entries, expired_of, candidates_of, is_contained,
}
use nodeguard.Ngmap.Live.Networks.{IsKeyed, dump_map-IsKeyed, decode-IsNetwork}
use nodeguard.Ngmap.Live.Purge.{
  Lasts, purge_each-lasting, purge_each-outside, candidates_of-Respects,
}

module _ (h : Host) where
  expired_of-IsNetwork :
      (now : ℕ) (es : List (Bytes × Value))
      → All IsKeyed es
      → Ensures (All IsNetwork) (expired_of h now es)
  unfolding expired_of
  expired_of-IsNetwork now [] hk = Ensures-pure _ tt
  expired_of-IsNetwork now ((k, v) ∷ es) hk = Ensures-then _ _ λ x.
      Ensures-bind _ _
        (Ensures-if (is_expired now x.0) _ (pure [])
          (λ _. Ensures-bind _ _ (decode-IsNetwork h k hk.0) λ n hn. Ensures-pure (n ∷ []) (hn, tt))
          (λ _. Ensures-pure [] tt))
        λ here hh.
          Ensures-bind _ _ (expired_of-IsNetwork now es hk.1)
            λ rest hr. Ensures-pure _ (All-append IsNetwork here rest hh hr)

  -- The candidates that the purge reads for itself are well-formed.
  own_candidates-IsNetwork : (p : String) → Ensures (All IsNetwork) (candidates_of h p none)
  unfolding candidates_of expired_entries
  own_candidates-IsNetwork p =
      Ensures-then _ _
        λ now. Ensures-bind _ _ (dump_map-IsKeyed h p) λ es hk. expired_of-IsNetwork now es hk

  module _ (holds : h.World → String → List String → Option (List String))
      (laws : Laws h holds) where
    -- On a host that meets the laws, an entry of any map that has not expired at the purge's own clock
    -- reading has the same value after the purge as before.
    pub purge-keeps_lasting :
        (p : String) (net : Network) (cands : Option (List Network)) (p' : String)
        (k' : List String) (w : h.World)
        → ((now : ℕ)
            → (mono_ns h (candidates_of h p cands w).1).0 ≡ ok now
            → Lasts now (holds w p' k'))
        → holds (purge_contained_expired h p net cands w).1 p' k' ≡ holds w p' k'
    unfolding purge_contained_expired
    purge-keeps_lasting p net cands p' k' w lasts =
        bind_at (kept_at h holds p' k') (candidates_of h p cands) _ w kept₁ λ cs _.
          bind_at (kept_at h holds p' k') (mono_ns h) _ (candidates_of h p cands w).1 kept₂
            λ now read.
              (purge_each-lasting h holds laws now p net cs p' k').at _
                (λ v b x y q. lasts now read v b x y (sym kept₁ ∙ sym kept₂ ∙ q))
      where
        kept₁ : holds (candidates_of h p cands w).1 p' k' ≡ holds w p' k'
        kept₁ = (candidates_of-Respects h holds laws p' k' p cands).at w

        kept₂ :
            holds (mono_ns h (candidates_of h p cands w).1).1 p' k'
            ≡ holds (candidates_of h p cands w).1 p' k'
        kept₂ =
            (mono_ns-Respects h (reading_kept h holds laws p' k')).at (candidates_of h p cands w).1

    -- An entry whose network is not strictly inside the one just written is left alone.
    pub purge-keeps_outside :
        (p : String) (net m : Network) (p' : String)
        → IsNetwork m
        → is_contained h net m ≡ false
        → Respects
            (kept_at h holds p' (bytes_to_args (key_bytes m)))
            (purge_contained_expired h p net none)
    unfolding purge_contained_expired
    purge-keeps_outside p net m p' hm out = record {
      at = λ w.
          bind_at (kept_at h holds p' _) (candidates_of h p none) _ w
            ((candidates_of-Respects h holds laws p' _ p none).at w)
            λ cs read.
              (Respects-bind _ _ (mono_ns-Respects h (reading_kept h holds laws p' _)) λ now.
                  purge_each-outside h holds laws now p net m cs p' hm out
                    ((own_candidates-IsNetwork p).at w cs read)).at
                _;
    }
