-- ===== src/Yaml/Captures.antt =====
-- The captures of build/mkyaml.py: a cluster id stands for one fanout group of the kernel.
use mathlib.Core.Path.{subst}
use nodeguard.Prelude.{
  ◌≡◌, refl, sym, ap, ◌∙◌, Bool, true, false, List, [], ◌∷◌, str_eq_iff, if◌then◌else◌, arith,
  if-elim, All, All-map,
}
use nodeguard.Yaml.Value.{
  Value, Values, Entries, null, dict, end, item, get, set, truthy, Gen, made, stopped,
  duplicate_cluster_id, ◌>>=◌, >>=-makes, made_path,
}
use nodeguard.Yaml.Generate.{
  get_or, ClusterId, nothing, number, word, id_of, same_id, seen, capture_of, capture, captures,
}

-- The cluster ids of the written captures.
abbrev pub ids_of : Gen ClusterId → List ClusterId → List ClusterId
ids_of (made i) is = i ∷ is
ids_of (stopped s) is = is

pub ids_in : Values → List ClusterId
ids_in end = []
ids_in (item (dict afp) vs) = ids_of (id_of (get_or null "cluster-id" afp)) (ids_in vs)
ids_in (item v vs) = ids_in vs

-- No id stands twice.
abbrev pub Distinct : List ClusterId → Type 0
Distinct [] = Unit
Distinct (i ∷ is) = (seen i is ≡ false) × Distinct is

same_id_sym : (i j : ClusterId) → same_id i j ≡ same_id j i
same_id_sym nothing nothing = refl
same_id_sym nothing (number n) = refl
same_id_sym nothing (word s) = refl
same_id_sym (number m) nothing = refl
same_id_sym (number m) (number n) = ground (arith)
same_id_sym (number m) (word s) = refl
same_id_sym (word s) nothing = refl
same_id_sym (word s) (number n) = refl
same_id_sym (word s) (word t) = ground (arith, str_eq_iff s t, str_eq_iff t s)

unseen_by-All :
    (i : ClusterId) (is : List ClusterId) → All (λ j. same_id i j ≡ false) is → seen i is ≡ false
unseen_by-All i [] a = refl
unseen_by-All i (j ∷ is) a = ground (arith, a.0, same_id_sym i j, unseen_by-All i is a.1)

capture_of-id :
    (iface threads cid ring filter : Value)
    → get_or null "cluster-id" (capture_of iface threads cid ring filter) ≡ cid
unfolding get set get_or
capture_of-id iface threads cid ring filter =
    if-elim (λ afp. get_or null "cluster-id" afp ≡ cid) (truthy filter) _ _ refl refl

capture-id :
    (cid : Value) (i afp : Entries) → capture cid i ≡ made afp → get_or null "cluster-id" afp ≡ cid
unfolding capture
capture-id cid i = >>=-makes HasId _ _ λ iface _. >>=-makes HasId _ _ λ threads _.
    >>=-makes HasId _ _ λ ring _ afp e.
      made_path HasId _ afp e (capture_of-id iface threads cid ring (get_or null "bpf_filter" i))
  where
    HasId : Entries → Type 0
    HasId afp = get_or null "cluster-id" afp ≡ cid

-- The ids of the captures are distinct, and none was seen before.
abbrev Fresh : List ClusterId → Values → Type 0
Fresh ids afp = All (λ j. seen j ids ≡ false) (ids_in afp) × Distinct (ids_in afp)

fresh-cons :
    (ids is : List ClusterId) (i : ClusterId)
    → seen i ids ≡ false
    → All (λ j. seen j (i ∷ ids) ≡ false) is × Distinct is
    → All (λ j. seen j ids ≡ false) (i ∷ is) × Distinct (i ∷ is)
fresh-cons ids is i new f = (
  (new, All-map (λ j (q : seen j (i ∷ ids) ≡ false). older j q) is f.0),
  (unseen_by-All i is (All-map (λ j (q : seen j (i ∷ ids) ≡ false). apart j q) is f.0), f.1),
)
  where
    older : (j : ClusterId) → seen j (i ∷ ids) ≡ false → seen j ids ≡ false
    older j q = ground (arith, q)

    apart : (j : ClusterId) → seen j (i ∷ ids) ≡ false → same_id i j ≡ false
    apart j q = ground (arith, q)

ids_in-item :
    (c : Entries) (rest : Values) (id : ClusterId)
    → id_of (get_or null "cluster-id" c) ≡ made id
    → ids_in (item (dict c) rest) ≡ id ∷ ids_in rest
unfolding ids_in
ids_in-item c rest id e = ap (λ g. ids_of g (ids_in rest)) e

-- One more interface, whose id is new.
captured :
    (ids : List ClusterId) (id : ClusterId) (cid : Value) (i : Entries) (vs : Values)
    → id_of cid ≡ made id
    → seen id ids ≡ false
    → ((rest : Values) → captures (id ∷ ids) vs ≡ made rest → Fresh (id ∷ ids) rest)
    → (afp : Values)
    → (capture cid i >>= λ c. captures (id ∷ ids) vs >>= λ rest. made (item (dict c) rest))
      ≡ made afp
    → Fresh ids afp
captured ids id cid i vs is_id new later = >>=-makes (Fresh ids) _ _ λ c is_c.
    >>=-makes (Fresh ids) _ _ λ rest is_rest afp e.
      made_path (Fresh ids) (item (dict c) rest) afp e (
        subst (λ (is : List ClusterId). All (λ j. seen j ids ≡ false) is × Distinct is)
          (sym (ids_in-item c rest id (ap id_of (capture-id cid i c is_c) ∙ is_id)))
          (fresh-cons ids (ids_in rest) id new (later rest is_rest)))

guarded :
    (ids : List ClusterId) (b : Bool) (rest : Gen Values) (afp : Values)
    → (if b then stopped duplicate_cluster_id else rest) ≡ made afp
    → (b ≡ false) × (rest ≡ made afp)
guarded ids true rest afp e = ground (arith, e)
guarded ids false rest afp e = (refl, e)

captures-Fresh :
    (ids : List ClusterId) (vs afp : Values) → captures ids vs ≡ made afp → Fresh ids afp
unfolding captures ids_in
captures-Fresh ids end = λ afp e. made_path (Fresh ids) end afp e (tt, tt)
captures-Fresh ids (item v vs) = >>=-makes (Fresh ids) _ _ λ i _.
    >>=-makes (Fresh ids) _ _ λ id is_id afp e.
      let (new, rest) = guarded ids (seen id ids) _ afp e in
      captured ids id _ i vs is_id new (captures-Fresh (id ∷ ids) vs) afp rest

-- If the captures of the interfaces are made, no cluster id is written twice.
pub captures-Distinct : (vs afp : Values) → captures [] vs ≡ made afp → Distinct (ids_in afp)
captures-Distinct vs afp e = (captures-Fresh [] vs afp e).1
