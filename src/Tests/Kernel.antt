-- ===== src/Tests/Kernel.antt =====
-- A host whose maps are an association list: it meets every law, so the laws can hold together.
use mathlib.Core.Path.{subst}
use nodeguard.Prelude.{
  ℕ, ◌≡◌, ◌≢◌, refl, ◌∙◌, Bool, true, false, ◌&&◌, Option, none, some, List, [], ◌∷◌, String, ◌⊎◌,
  arith, if◌then◌else◌, str_eq, str_eq_iff, strs_eq, strs_eq_iff,
}
use nodeguard.Net.{v4, Network, IsNetwork, block_size}
use nodeguard.Ngmap.Host.{
  Host, Laws, Call, map_lookup, map_dump, map_show, map_update, map_delete, map_create, Row, single,
  Reply, null, entry, rows, other, Outcome, done, failed,
}

pub record Item : Type 0 where
  pub path : String
  pub key : List String
  pub value : List String

pub record Kernel : Type 0 where
  pub store : List Item
  pub clock : ℕ

abbrev is_at : String → List String → Item → Bool
is_at p k i = str_eq i.path p && strs_eq i.key k

abbrev pub get : String → List String → List Item → Option (List String)
get p k [] = none
get p k (i ∷ is) = if is_at p k i then some i.value else get p k is

abbrev without : String → List String → List Item → List Item
without p k [] = []
without p k (i ∷ is) = let rest = without p k is in if is_at p k i then rest else i ∷ rest

abbrev rows_of : String → List Item → List Row
rows_of p [] = []
rows_of p (i ∷ is) =
    let rest = rows_of p is in if str_eq i.path p then single i.key i.value ∷ rest else rest

abbrev pub answer : Option (List String) → Outcome
answer none = failed ""
answer (some v) = done (entry v)

abbrev pub removal : Option (List String) → Outcome
removal none = failed "Error: delete failed: No such file or directory"
removal (some v) = done null

abbrev run : Call → Kernel → Outcome × Kernel
run (map_lookup p k) w = (answer (get p k w.store), w)
run (map_dump p) w = (done (rows (rows_of p w.store)), w)
run (map_show p) w = (failed "", w)
run (map_update p k v) w =
    (done other, record w { store = record { path = p; key = k; value = v } ∷ without p k w.store })
run (map_delete p k) w = (removal (get p k w.store), record w { store = without p k w.store })
run (map_create p o) w = (done other, w)

pub get-without_self :
    (p : String) (k : List String) (s : List Item) → get p k (without p k s) ≡ none
get-without_self p k [] = refl
get-without_self p k (i ∷ s) = ground (arith, get-without_self p k s)

get-without_other :
    (p p' : String) (k k' : List String) (s : List Item)
    → (p ≢ p') ⊎ (k ≢ k')
    → get p' k' (without p k s) ≡ get p' k' s
get-without_other p p' k k' [] ne = refl
get-without_other p p' k k' (i ∷ s) ne = ground (
  arith,
  get-without_other p p' k k' s ne,
  str_eq_iff i.path p,
  str_eq_iff i.path p',
  strs_eq_iff i.key k,
  strs_eq_iff i.key k',
)

get-cons_other :
    (p p' : String) (k k' v : List String) (s : List Item)
    → (p ≢ p') ⊎ (k ≢ k')
    → get p' k' (record { path = p; key = k; value = v } ∷ s) ≡ get p' k' s
get-cons_other p p' k k' v s ne = ground (arith, str_eq_iff p p', strs_eq_iff k k')

get-cons_self :
    (p : String) (k v : List String) (s : List Item)
    → get p k (record { path = p; key = k; value = v } ∷ s) ≡ some v
get-cons_self p k v s = ground (arith, str_eq_iff p p, strs_eq_iff k k)

-- Documentation addresses and a private one, parsed as Python parses them.
abbrev pub attacker : Network
attacker = record { version = v4; address = 3405803783; prefixlen = 32 }

abbrev pub attackers : Network
attackers = record { version = v4; address = 3405803776; prefixlen = 24 }

abbrev pub insider : Network
insider = record { version = v4; address = 167838211; prefixlen = 32 }

abbrev parse : String → Option Network
parse t =
    if str_eq t "203.0.113.7"
    then some attacker
    else if str_eq t "203.0.113.0/24"
    then some attackers
    else if str_eq t "10.1.2.3"
    then some insider
    else none

abbrev pub host : Host
host = record {
  World = Kernel;
  run = run;
  monotonic_ns = λ w. (w.clock, w);
  path_exists = λ w p. true;
  lock = λ w. w;
  unlock = λ w. w;
  ip_network = parse;
  ip_address = λ t. none;
  read_lines = λ w p. none;
}

abbrev pub holds : Kernel → String → List String → Option (List String)
holds w p k = get p k w.store

answer-entry : (o : Option (List String)) (v : List String) → answer o ≡ done (entry v) → o ≡ some v
answer-entry none v e = cc
answer-entry (some u) v e = cc

answer-failed : (o : Option (List String)) (m : String) → answer o ≡ failed m → o ≡ none
answer-failed none m e = refl
answer-failed (some u) m e = cc

answer-no_entry :
    (o : Option (List String)) (r : Reply)
    → answer o ≡ done r
    → ((v : List String) → r ≢ entry v)
    → o ≡ none
answer-no_entry none r e ne = refl
answer-no_entry (some u) r e ne = absurd (ne u (cc))

pub host-Laws : Laws host holds
host-Laws = record {
  lookup_reads = λ w p p' k k'. refl;
  lookup_entry = λ w p k v e. answer-entry (get p k w.store) v e;
  lookup_failed = λ w p k {message} e pinned. answer-failed (get p k w.store) message e;
  lookup_no_entry = λ w p k {r} e ne. answer-no_entry (get p k w.store) r e ne;
  dump_reads = λ w p p' k'. refl;
  clock_reads = λ w p' k'. refl;
  update_done = λ w p k v e. get-cons_self p k v (without p k w.store);
  update_other = λ w p p' k v k' ne.
      get-cons_other p p' k k' v (without p k w.store) ne ∙ get-without_other p p' k k' w.store ne;
  delete_done = λ w p k e. get-without_self p k w.store;
  delete_other = λ w p p' k k' ne. get-without_other p p' k k' w.store ne;
  unlock_keeps = λ w p' k'. refl;
}

pub attacker-IsNetwork : IsNetwork attacker
unfolding block_size
attacker-IsNetwork = omega arith

pub attackers-IsNetwork : IsNetwork attackers
unfolding block_size
attackers-IsNetwork = omega arith

pub insider-IsNetwork : IsNetwork insider
unfolding block_size
insider-IsNetwork = omega arith

branch :
    (b : Bool) (m n : Network) (rest : Option Network)
    → IsNetwork m
    → (rest ≡ some n → IsNetwork n)
    → (if b then some m else rest) ≡ some n
    → IsNetwork n
branch true m n rest hm hr e = subst IsNetwork (some_inj e) hm
  where
    some_inj : some m ≡ some n → m ≡ n
    some_inj q = cc
branch false m n rest hm hr e = hr e

pub parse-IsNetwork : (t : String) (n : Network) → host.ip_network t ≡ some n → IsNetwork n
parse-IsNetwork t n e =
    branch (str_eq t "203.0.113.7") attacker n _ attacker-IsNetwork
      (branch (str_eq t "203.0.113.0/24") attackers n _ attackers-IsNetwork
        (branch (str_eq t "10.1.2.3") insider n _ insider-IsNetwork (λ q. cc)))
      e
