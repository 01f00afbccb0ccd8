-- ===== src/Ngmap/Sweep/Ranking.antt =====
-- The leaderboard of bin/ngmap.py's sweep.
use mathlib.Core.List.{Perm, perm_middle}
use mathlib.Core.List.Perm
use nodeguard.Prelude.{
  ℕ, zero, suc, ◌≤◌, ◌≡◌, String, true, List, [], ◌∷◌, ◌++◌, ltb, take, drop, arith, All, All-map,
  Bool-cases, if-elim, inl, inr,
}
use nodeguard.Ngmap.Sweep.{place, rank_from, rank}

-- No entry has more hits than one before it.
abbrev pub Descending : List (String × ℕ) → Type 0
Descending [] = Unit
Descending (e ∷ es) = All (λ (x : String × ℕ). x.1 ≤ e.1) es × Descending es

place-All :
    (P : String × ℕ → Type 0) (e : String × ℕ) (es : List (String × ℕ))
    → P e
    → All P es
    → All P (place e es)
unfolding place
place-All P e [] p ps = (p, tt)
place-All P e (x ∷ xs) p ps =
    if-elim (All P) (ltb x.1 e.1) (e ∷ x ∷ xs) (x ∷ place e xs) (p, ps)
      (ps.0, place-All P e xs p ps.1)

place-Descending :
    (e : String × ℕ) (es : List (String × ℕ)) → Descending es → Descending (place e es)
unfolding place
place-Descending e [] d = (tt, tt)
place-Descending e (x ∷ xs) d = elim (Bool-cases (ltb x.1 e.1)) [
  | inl y ↦
      rw y
        ((ground (arith, y), All-map (λ (z : String × ℕ) (q : z.1 ≤ x.1). below z y q) xs d.0), d)
  | inr n ↦ rw n (
    place-All (λ (z : String × ℕ). z.1 ≤ x.1) e xs (ground (arith, n)) d.0,
    place-Descending e xs d.1,
  )
]
  where
    below : (z : String × ℕ) → ltb x.1 e.1 ≡ true → z.1 ≤ x.1 → z.1 ≤ e.1
    below z y q = ground (arith, y, q)

place-Perm : (e : String × ℕ) (es : List (String × ℕ)) → Perm (place e es) (e ∷ es)
unfolding place
place-Perm e [] = Perm.rfl
place-Perm e (x ∷ xs) =
    if-elim (λ l. Perm l (e ∷ x ∷ xs)) (ltb x.1 e.1) (e ∷ x ∷ xs) (x ∷ place e xs) Perm.rfl
      (Perm.trans (Perm.cons x (place-Perm e xs)) (Perm.swap e x xs))

rank_from-Descending :
    (es done : List (String × ℕ)) → Descending done → Descending (rank_from es done)
unfolding rank_from
rank_from-Descending [] done d = d
rank_from-Descending (e ∷ es) done d =
    rank_from-Descending es (place e done) (place-Descending e done d)

rank_from-Perm : (es done : List (String × ℕ)) → Perm (rank_from es done) (es ++ done)
unfolding rank_from
rank_from-Perm [] done = Perm.rfl
rank_from-Perm (e ∷ es) done =
    Perm.trans (rank_from-Perm es (place e done))
      (Perm.trans (Perm.append_left es (place-Perm e done)) (perm_middle es done))

All-drop : (P : String × ℕ → Type 0) (n : ℕ) (es : List (String × ℕ)) → All P es → All P (drop n es)
All-drop P zero es a = a
All-drop P (suc n) [] a = tt
All-drop P (suc n) (x ∷ xs) a = All-drop P n xs a.1

Descending-cut :
    (n : ℕ) (es : List (String × ℕ))
    → Descending es
    → All (λ (x : String × ℕ). All (λ (y : String × ℕ). y.1 ≤ x.1) (drop n es)) (take n es)
Descending-cut zero es d = tt
Descending-cut (suc n) [] d = tt
Descending-cut (suc n) (e ∷ es) d =
    (All-drop (λ (y : String × ℕ). y.1 ≤ e.1) n es d.0, Descending-cut n es d.1)

-- The ranking holds the entries that it was given, the most hits first; so none of those below the
-- first five has more hits than one of the first five.
rank-Descending :
    (es : List (String × ℕ))
    → Descending (rank es)
      × Perm (rank es) es
      × All
          (λ (x : String × ℕ). All (λ (y : String × ℕ). y.1 ≤ x.1) (drop 5 (rank es)))
          (take 5 (rank es))
unfolding rank
rank-Descending es =
    let sorted = rank_from-Descending es [] tt in
    (
      sorted,
      Perm.trans (rank_from-Perm es []) (append_nil es),
      Descending-cut 5 (rank_from es []) sorted,
    )
  where
    append_nil : (xs : List (String × ℕ)) → Perm (xs ++ []) xs
    append_nil [] = Perm.rfl
    append_nil (x ∷ xs) = Perm.cons x (append_nil xs)
