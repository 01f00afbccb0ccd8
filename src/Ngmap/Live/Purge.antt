-- ===== src/Ngmap/Live/Purge.antt =====
-- What `purge_contained_expired` of bin/ngmap.py deletes, and what it leaves alone.
use mathlib.Core.Path.{subst, subst₂}
use nodeguard.Prelude.{
  ℕ, ◌^◌, ◌<◌, ◌≡◌, ◌≢◌, refl, sym, ◌∙◌, ap, true, false, Option, none, some, List, [], ◌∷◌, ◌++◌,
  String, ◌⊎◌, inl, inr, arith, Bool-cases, Option-cases, if◌then◌else◌, All, strs_eq, strs_eq_iff,
  str_eq, str_eq_iff, ◌&&◌,
}
use nodeguard.Net.{Network, IsNetwork}
use nodeguard.Ngmap.Pack.{Bytes, unpack_pair, le_bytes, le_pair-IsBytes, unpack_pair-le_bytes}
use nodeguard.Ngmap.Hex.{bytes_to_args, args_to_bytes, args_to_bytes-bytes_to_args}
use nodeguard.Ngmap.Keys.{key_bytes, key_args-injective}
use nodeguard.Ngmap.Exec.{ok, struct_error, pure, ◌>>=◌}
use nodeguard.Ngmap.Exec.Respects.{
  Order, Respects, Respects-bind, Respects-pure, Respects-if, Respects-or_raise, bind_at,
}
use nodeguard.Ngmap.Host.{Host, Laws}
use nodeguard.Ngmap.Maps.{Value, lookup_value, is_expired}
use nodeguard.Ngmap.Maps.Reads.{
  lookup_value-Respects, mono_ns-Respects, dump_map-Respects, unpack_entry-Respects,
  decode-Respects,
}
use nodeguard.Ngmap.Maps.Writes.{kept_at, reading_kept, lookup_value-some, delete_key-keeps}
use nodeguard.Ngmap.Live.{
  purge_one, purge_found, purge_expired, purge_each, expired_entries, expired_of, is_contained,
  candidates_of,
}

-- A value by which an entry has not expired at that time: it is permanent, or its time is to come,
-- or it is no value of a block map at all.
abbrev pub Lasts : ℕ → Option (List String) → Type 0
Lasts now o =
    (v : List String) (b : Bytes) (expiry hits : ℕ)
    → o ≡ some v
    → args_to_bytes v ≡ some b
    → unpack_pair b ≡ some (expiry, hits)
    → is_expired now expiry ≡ false

some_inj : {A : Type 0} {x y : A} → some x ≡ some y → x ≡ y
some_inj e = cc

-- A well-formed value lasts as long as its expiry says.
pub stored-Lasts :
    (now expiry hits : ℕ)
    → expiry < 2 ^ 64
    → hits < 2 ^ 64
    → is_expired now expiry ≡ false
    → Lasts now (some (bytes_to_args (le_bytes 8 expiry ++ le_bytes 8 hits)))
stored-Lasts now expiry hits he hh fresh v b t c ev eb eu =
    let value : Bytes = le_bytes 8 expiry ++ le_bytes 8 hits in
    let read : args_to_bytes v ≡ some value =
      subst (λ o. args_to_bytes o ≡ some value) (some_inj ev)
        (args_to_bytes-bytes_to_args value (le_pair-IsBytes expiry hits)) in
    let same : value ≡ b = some_inj (sym read ∙ eb) in
    let pair = some_inj (sym (unpack_pair-le_bytes expiry hits he hh) ∙ ap unpack_pair same ∙ eu) in
    subst (λ (x : ℕ × ℕ). is_expired now x.0 ≡ false) pair fresh

apart :
    (p p' : String) (k k' : List String)
    → (str_eq p p' && strs_eq k k') ≡ false
    → (p ≢ p') ⊎ (k ≢ k')
apart p p' k k' e = elim (Bool-cases (str_eq p p')) [
  | inl same ↦ inr (λ q. ground (arith, (strs_eq_iff k k').1 q))
  | inr differs ↦ inl (λ q. ground (arith, (str_eq_iff p p').1 q))
]

module _ (h : Host) (holds : h.World → String → List String → Option (List String)) where
  -- An entry that has not expired at `now` stays.
  abbrev pub lasting_at : ℕ → String → List String → Order h.World
  lasting_at now p k = record {
    R = λ w w'. Lasts now (holds w p k) → holds w' p k ≡ holds w p k;
    same = λ w _. refl;
    chain = λ e e' l. e' (λ v b x y q. l v b x y (sym (e l) ∙ q)) ∙ e l;
  }

  module _ (laws : Laws h holds) (now : ℕ) where
    -- The key itself.
    purge_one_self :
        (p : String) (raw : Bytes)
        → Respects (lasting_at now p (bytes_to_args raw)) (purge_one h p now raw)
    unfolding purge_one
    purge_one_self p raw = record {
      at = λ w lasts.
          bind_at (kept_at h holds p key) (lookup_value h p raw) (purge_found h p now raw) w
            ((lookup_value-Respects h (reading_kept h holds laws p key) p raw).at w)
            (λ cur e. rest w lasts cur e);
    }
      where
        key : List String
        key = bytes_to_args raw

        unexpired :
            (w : h.World) (b : Bytes) (x hits : ℕ)
            → Lasts now (holds w p (bytes_to_args raw))
            → (lookup_value h p raw w).0 ≡ ok (some b)
            → unpack_pair b ≡ some (x, hits)
            → is_expired now x ≡ false
        unexpired w b x hits lasts e u =
            let (v, hv, hb) = lookup_value-some h holds laws p raw w b e in lasts v b x hits hv hb u

        rest :
            (w : h.World)
            → Lasts now (holds w p (bytes_to_args raw))
            → (cur : Option Bytes) → (lookup_value h p raw w).0 ≡ ok cur
            → (kept_at h holds p (bytes_to_args raw)).R
                (lookup_value h p raw w).1
                (purge_found h p now raw cur (lookup_value h p raw w).1).1
        rest w lasts none e = unfold purge_found pure in refl
        rest w lasts (some b) e = elim (Option-cases (unpack_pair b)) [
          | inl odd ↦ unfold purge_found ◌>>=◌ in ground arith
          | inr ((x, hits), u) ↦
              unfold purge_found ◌>>=◌ in ground (arith, unexpired w b x hits lasts e u)
        ]

    purge_one-other :
        (p : String) (raw : Bytes) (p' : String) (k' : List String)
        → (p ≢ p') ⊎ (bytes_to_args raw ≢ k')
        → Respects (kept_at h holds p' k') (purge_one h p now raw)
    unfolding purge_one purge_found purge_expired
    purge_one-other p raw p' k' ne =
        Respects-bind _ _ (lookup_value-Respects h (reading_kept h holds laws p' k') p raw) found'
      where
        found' :
            (cur : Option Bytes) → Respects (kept_at h holds p' k') (purge_found h p now raw cur)
        found' none = Respects-pure 0
        found' (some b) = Respects-bind _ _ (Respects-or_raise struct_error (unpack_pair b)) λ x.
            Respects-if (is_expired now x.0) (purge_expired h p raw) (pure 0)
              (Respects-bind _ _ (delete_key-keeps h holds laws p raw p' k' ne)
                (λ gone. Respects-pure _))
              (Respects-pure 0)

    pub purge_one-lasting :
        (p : String) (raw : Bytes) (p' : String) (k' : List String)
        → Respects (lasting_at now p' k') (purge_one h p now raw)
    purge_one-lasting p raw p' k' =
        elim (Bool-cases (str_eq p p' && strs_eq (bytes_to_args raw) k')) [
          | inl same ↦
              subst₂ (λ q k. Respects (lasting_at now q k) (purge_one h p now raw))
                ((str_eq_iff p p').0 (ground arith))
                ((strs_eq_iff (bytes_to_args raw) k').0 (ground arith)) (purge_one_self p raw)
          | inr differs ↦ record {
            at = λ w _.
                (purge_one-other p raw p' k' (apart p p' (bytes_to_args raw) k' differs)).at w;
          }
        ]

    pub purge_each-lasting :
        (p : String) (net : Network) (cands : List Network) (p' : String) (k' : List String)
        → Respects (lasting_at now p' k') (purge_each h p net now cands)
    unfolding purge_each
    purge_each-lasting p net [] p' k' = Respects-pure 0
    purge_each-lasting p net (cand ∷ rest) p' k' =
        Respects-bind _ _
          (Respects-if (is_contained h net cand) (purge_one h p now (key_bytes cand)) (pure 0)
            (purge_one-lasting p (key_bytes cand) p' k') (Respects-pure 0))
          λ here. Respects-bind _ _ (purge_each-lasting p net rest p' k') λ later. Respects-pure _

    -- Keys of networks that are not strictly inside the network just written.
    pub purge_each-outside :
        (p : String) (net m : Network) (cands : List Network) (p' : String)
        → IsNetwork m
        → is_contained h net m ≡ false
        → All IsNetwork cands
        → Respects (kept_at h holds p' (bytes_to_args (key_bytes m))) (purge_each h p net now cands)
    unfolding purge_each
    purge_each-outside p net m [] p' hm out hc = Respects-pure 0
    purge_each-outside p net m (cand ∷ rest) p' hm out hc =
        Respects-bind _ _ (one (Bool-cases (is_contained h net cand))) λ here.
          Respects-bind _ _ (purge_each-outside p net m rest p' hm out hc.1)
            λ later. Respects-pure _
      where
        other :
            is_contained h net cand ≡ true
            → bytes_to_args (key_bytes cand) ≢ bytes_to_args (key_bytes m)
        other inside e = cc (key_args-injective cand m hc.0 hm e)

        one :
            (is_contained h net cand ≡ true) ⊎ (is_contained h net cand ≡ false)
            → Respects
                (kept_at h holds p' (bytes_to_args (key_bytes m)))
                (if is_contained h net cand then purge_one h p now (key_bytes cand) else pure 0)
        one (inl inside) = rw inside (purge_one-other p (key_bytes cand) p' _ (inr (other inside)))
        one (inr outside) = rw outside (Respects-pure 0)

  module _ (laws : Laws h holds) where
    pub expired_of-Respects :
        (p' : String) (k' : List String) (now : ℕ) (es : List (Bytes × Value))
        → Respects (kept_at h holds p' k') (expired_of h now es)
    unfolding expired_of
    expired_of-Respects p' k' now [] = Respects-pure []
    expired_of-Respects p' k' now ((k, v) ∷ es) =
        Respects-bind _ _ (unpack_entry-Respects h (reading_kept h holds laws p' k') v) λ x.
          Respects-bind _ _
            (Respects-if (is_expired now x.0) _ (pure [])
              (Respects-bind _ _ (decode-Respects h (reading_kept h holds laws p' k') k)
                λ n. Respects-pure _)
              (Respects-pure []))
            λ here. Respects-bind _ _ (expired_of-Respects p' k' now es) λ rest. Respects-pure _

    pub candidates_of-Respects :
        (p' : String) (k' : List String) (p : String) (cands : Option (List Network))
        → Respects (kept_at h holds p' k') (candidates_of h p cands)
    unfolding candidates_of expired_entries
    candidates_of-Respects p' k' p none =
        Respects-bind _ _ (mono_ns-Respects h (reading_kept h holds laws p' k')) λ now.
          Respects-bind _ _ (dump_map-Respects h (reading_kept h holds laws p' k') p)
            λ es. expired_of-Respects p' k' now es
    candidates_of-Respects p' k' p (some cs) = Respects-pure cs
