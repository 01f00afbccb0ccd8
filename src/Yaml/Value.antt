-- ===== src/Yaml/Value.antt =====
-- YAML and JSON documents as PyYAML and `json` give them to build/mkyaml.py. A mapping keeps the order
-- of its keys, which are texts; numbers are natural; no two places of a document share an object.
use mathlib.Core.Path.{subst}
use nodeguard.Prelude.{
  ℕ, ◌≡◌, refl, String, Bool, true, false, not, Option, none, some, str_eq, str_eq_iff,
  if◌then◌else◌, ◌==◌, arith,
}

mutual
  pub data Value : Type 0 where
    null : Value
    bool : Bool → Value
    num : ℕ → Value
    str : String → Value
    seq : Values → Value
    dict : Entries → Value

  pub data Values : Type 0 where
    end : Values
    item : Value → Values → Values

  pub data Entries : Type 0 where
    empty : Entries
    entry : String → Value → Entries → Entries

-- `d.get(k)`
unfoldable pub get : String → Entries → Option Value
get k empty = none
get k (entry j v d) = let rest = get k d in if str_eq j k then some v else rest

-- `d[k] = v`
unfoldable pub set : String → Value → Entries → Entries
set k v empty = entry k v empty
set k v (entry j w d) = let rest = set k v d in if str_eq j k then entry j v d else entry j w rest

-- `k in d`
abbrev pub has : String → Entries → Bool
has k d = elim (get k d) [ none ↦ false | some _ ↦ true ]

pub get-set :
    (k j : String) (v : Value) (d : Entries)
    → get j (set k v d) ≡ (if str_eq k j then some v else get j d)
unfolding get set
get-set k j v empty = refl
get-set k j v (entry i w d) =
    ground (arith, str_eq_iff k j, str_eq_iff i k, str_eq_iff i j, get-set k j v d)

-- `bool(v)`
abbrev pub truthy : Value → Bool
truthy null = false
truthy (bool b) = b
truthy (num n) = not (n == 0)
truthy (str t) = not (str_eq t "")
truthy (seq end) = false
truthy (seq (item _ _)) = true
truthy (dict empty) = false
truthy (dict (entry _ _ _)) = true

-- How the generation ends: `sys.exit` with a message, or an exception of Python.
pub data Stop : Type 0 where
  no_stock_version empty_stock_version : Stop
  missing_key : String → Stop
  duplicate_cluster_id : Stop
  exception : Stop

pub data Gen {ℓ} (A : Type ℓ) : Type ℓ where
  made : A → Gen A
  stopped : Stop → Gen A

module _ {A B : Type 0} where
  infixl 5 ◌>>=◌ ◌>>◌
  unfoldable pub ◌>>=◌ : Gen A → (A → Gen B) → Gen B
  made a >>= f = f a
  stopped s >>= f = stopped s

  abbrev pub ◌>>◌ : Gen A → Gen B → Gen B
  m >> k = m >>= λ _. k

  -- A sequence that ends with a value, taken apart.
  pub >>=-made :
      (m : Gen A) (f : A → Gen B) (b : B)
      → (m >>= f) ≡ made b
      → (a : A) × (m ≡ made a) × (f a ≡ made b)
  unfolding ◌>>=◌
  >>=-made (made a) f b e = (a, refl, e)
  >>=-made (stopped s) f b e = ground (arith, e)

  -- What holds of every result of the rest holds of the result.
  pub >>=-makes {ℓ} :
      (Q : B → Type ℓ) (m : Gen A) (f : A → Gen B)
      → ((a : A) → m ≡ made a → (b : B) → f a ≡ made b → Q b)
      → (b : B) → (m >>= f) ≡ made b
      → Q b
  >>=-makes Q m f k b e = let (a, first, rest) = >>=-made m f b e in k a first b rest

made_inj : {A : Type 0} (a b : A) → made a ≡ made b → a ≡ b
made_inj a b e = cc

pub made_path {ℓ} : {A : Type 0} (Q : A → Type ℓ) (a b : A) → made a ≡ made b → Q a → Q b
made_path Q a b e q = subst Q (made_inj a b e) q

-- `d[k]`
unfoldable pub fetch : String → Entries → Gen Value
fetch k d = elim (get k d) [ none ↦ stopped exception | some v ↦ made v ]

-- A value that is indexed by a key must be a mapping.
unfoldable pub as_dict : Value → Gen Entries
as_dict (dict d) = made d
as_dict _ = stopped exception
