-- ===== src/Migrate/Order.antt =====
-- src/db/migrate.py: files with the numbers 1 to n, listed in any order, are sorted to 1, 2, ..., n.
use infrabox.Migrate.{insert_file, sort_files, suc, drop}
use infrabox.Prelude.{
  ℕ, List, [], String, ◌∷◌, All, ◌≤◌, ◌<◌, ◌≡◌, if◌then◌else◌, arith, ◌∙◌, Bool-cases, All-map, eqb,
  leb, zero, refl, ◌&&◌, inl, ltb, inr, ◌+◌,
}

-- n numbers from a on.
abbrev pub range : ℕ → ℕ → List ℕ
range a zero = []
range a (suc n) = a ∷ range (suc a) n

abbrev pub numbers : List (String × ℕ) → List ℕ
numbers [] = []
numbers (f ∷ fs) = f.1 ∷ numbers fs

unfoldable pub count : ℕ → List ℕ → ℕ
count k [] = 0
count k (x ∷ xs) = let rest = count k xs in if eqb k x then suc rest else rest

-- Each number from 1 to n is that of one file, and there are no others.
abbrev pub Numbered : ℕ → List (String × ℕ) → Type 0
Numbered n files = (k : ℕ) → count k (numbers files) ≡ (if leb 1 k && leb k n then 1 else 0)

module _ {ℓ} (P : String × ℕ → Type ℓ) where
  All-insert_file :
      (f : String × ℕ) (gs : List (String × ℕ)) → P f → All P gs → All P (insert_file f gs)
  unfolding insert_file
  All-insert_file f [] p h = (p, tt)
  All-insert_file f (g ∷ gs) p (q, h) = elim (Bool-cases (leb f.1 g.1)) [
    | inl e ↦ rw e (p, (q, h))
    | inr e ↦ rw e (q, All-insert_file f gs p h)
  ]

  pub All-sort_files : (fs : List (String × ℕ)) → All P fs → All P (sort_files fs)
  unfolding sort_files
  All-sort_files [] h = tt
  All-sort_files (f ∷ fs) (p, h) = All-insert_file f (sort_files fs) p (All-sort_files fs h)

  pub All-drop : (n : ℕ) (fs : List (String × ℕ)) → All P fs → All P (drop n fs)
  All-drop zero fs h = h
  All-drop (suc n) [] h = h
  All-drop (suc n) (f ∷ fs) (p, h) = All-drop n fs h

abbrev AtLeast : ℕ → List ℕ → Type 0
AtLeast a = All (λ x. a ≤ x)

abbrev Ascending : List ℕ → Type 0
Ascending [] = Unit
Ascending (x ∷ xs) = AtLeast x xs × Ascending xs

count-insert_file :
    (k : ℕ) (f : String × ℕ) (gs : List (String × ℕ))
    → count k (numbers (insert_file f gs)) ≡ count k (numbers (f ∷ gs))
unfolding count insert_file
count-insert_file k f [] = refl
count-insert_file k f (g ∷ gs) = ground (arith, count-insert_file k f gs)

count-sort_files :
    (k : ℕ) (fs : List (String × ℕ)) → count k (numbers (sort_files fs)) ≡ count k (numbers fs)
unfolding count sort_files
count-sort_files k [] = refl
count-sort_files k (f ∷ fs) =
    count-insert_file k f (sort_files fs) ∙ ground (arith, count-sort_files k fs)

AtLeast-insert_file :
    (a : ℕ) (f : String × ℕ) (gs : List (String × ℕ))
    → a ≤ f.1
    → AtLeast a (numbers gs)
    → AtLeast a (numbers (insert_file f gs))
unfolding insert_file
AtLeast-insert_file a f [] h k = (h, tt)
AtLeast-insert_file a f (g ∷ gs) h (low, k) = elim (Bool-cases (leb f.1 g.1)) [
  | inl e ↦ rw e (h, (low, k))
  | inr e ↦ rw e (low, AtLeast-insert_file a f gs h k)
]

AtLeast-le : (a b : ℕ) (xs : List ℕ) → a ≤ b → AtLeast b xs → AtLeast a xs
AtLeast-le a b xs h = All-map (λ x. b ≤ x) (λ x. a ≤ x) (λ x k. omega arith) xs

insert_file-Ascending :
    (f : String × ℕ) (gs : List (String × ℕ))
    → Ascending (numbers gs)
    → Ascending (numbers (insert_file f gs))
unfolding insert_file
insert_file-Ascending f [] h = (tt, tt)
insert_file-Ascending f (g ∷ gs) (low, h) = elim (Bool-cases (leb f.1 g.1)) [
  | inl e ↦
      let le : f.1 ≤ g.1 = ground arith in
      rw e ((le, AtLeast-le f.1 g.1 (numbers gs) le low), (low, h))
  | inr e ↦
      let le : g.1 ≤ f.1 = ground arith in
      rw e (AtLeast-insert_file g.1 f gs le low, insert_file-Ascending f gs h)
]

sort_files-Ascending : (fs : List (String × ℕ)) → Ascending (numbers (sort_files fs))
unfolding sort_files
sort_files-Ascending [] = tt
sort_files-Ascending (f ∷ fs) = insert_file-Ascending f (sort_files fs) (sort_files-Ascending fs)

count-below : (k a : ℕ) (xs : List ℕ) → k < a → AtLeast a xs → count k xs ≡ 0
unfolding count
count-below k a [] h low = refl
count-below k a (x ∷ xs) h (le, low) = ground (arith, count-below k a xs h low)

-- An ascending list in which each number from a to a + n - 1 stands once is that range.
Ascending-range :
    (n a : ℕ) (xs : List ℕ)
    → Ascending xs
    → ((k : ℕ) → count k xs ≡ (if leb a k && ltb k (a + n) then 1 else 0))
    → xs ≡ range a n
unfolding count
Ascending-range zero a [] up once = refl
Ascending-range zero a (x ∷ xs) up once = let e = once x in ground arith
Ascending-range (suc n) a [] up once = let e = once a in ground arith
Ascending-range (suc n) a (x ∷ xs) (low, up) once =
    let in_range = once x in
    let first_one = once a in
    let head : x ≡ a = ground (arith, count-below a x xs) in
    let rest =
      Ascending-range n (suc a) xs up
        (λ k. (let e = once k in ground (arith, count-below k x xs))) in
    ground arith

-- Files that are numbered from 1 to n are sorted in that order.
pub numbers-sort_files :
    (n : ℕ) (files : List (String × ℕ)) → Numbered n files → numbers (sort_files files) ≡ range 1 n
numbers-sort_files n files h =
    Ascending-range n 1 (numbers (sort_files files)) (sort_files-Ascending files)
      (λ k. count-sort_files k files ∙ h k ∙ ground arith)
