-- ===== src/Djfs/Depth.antt =====
-- djmount/djfs.c: how deep a tree has to be for a path.
use djmount.Base.{
  ℕ, zero, suc, ◌≤◌, ◌<◌, Bool, ◌&&◌, ◌≡◌, refl, ap, ◌∙◌, List, [], ◌∷◌, Option, none, some, inl,
  inr, arith,
}
use djmount.Base.Lists.{Bytes, length, bytes_eq}
use djmount.Base.Tests.{if◌then◌else◌, Bool-cases}
use djmount.Base.Text.{codes}
use djmount.Base.Int.{pos}
use djmount.Vfs.{Query, Found, DType, dt_reg, dir_begin, is_zero}
use djmount.Vfs.Match.{Names}
use djmount.Vfs.Tree.{Tree, end, dir, leaf, append, resolve, listed, outcome}
use djmount.Vfs.Root.{answer}
use djmount.DidlObject.{DidlObject}
use djmount.ContentDir.{metadata, direct_children}
use djmount.Djfs.{Network, Djfs, head_of, names_or_none, can_search, is_null}
use djmount.Djfs.Trees.{
  leaf_of, set_devices, dir_of, all_of, object_tree, children_tree, contents_tree, device_tree,
  djfs_tree, status_tree,
}

-- Two trees with the same entries down to n directories below.
data Agree : ℕ → Tree → Tree → Type 0 where
  ends : {n : ℕ} → Agree n end end
  cut :
      {n : ℕ} (a : Bytes) (c d : Tree) {r s : Tree}
      → n ≡ 0
      → Agree n r s
      → Agree n (dir a c r) (dir a d s)
  dirs :
      {n : ℕ} (m : ℕ) (a : Bytes) {c d r s : Tree}
      → n ≡ suc m
      → Agree m c d
      → Agree n r s
      → Agree n (dir a c r) (dir a d s)
  leaves :
      {n : ℕ} (a : Bytes) (x : DType) (f : Query → Found → Found) {r s : Tree}
      → Agree n r s
      → Agree n (leaf a x f r) (leaf a x f s)

-- The same one directory up.
abbrev Below : ℕ → Tree → Tree → Type 0
Below zero t u = Unit
Below (suc n) t u = Agree n t u

Agree-refl : (n : ℕ) (t : Tree) → Agree n t t
Agree-refl n end = ends
Agree-refl zero (dir a c r) = cut a c c refl (Agree-refl zero r)
Agree-refl (suc n) (dir a c r) = dirs n a refl (Agree-refl n c) (Agree-refl (suc n) r)
Agree-refl n (leaf a x f r) = leaves a x f (Agree-refl n r)

module _ (u u' : Tree) where
  Agree-append :
      {n : ℕ} {t t' : Tree} → Agree n t t' → Agree n u u' → Agree n (append t u) (append t' u')
  unfolding append
  Agree-append ends k = k
  Agree-append (cut a c d e h) k = cut a c d e (Agree-append h k)
  Agree-append (dirs m a e g h) k = dirs m a e g (Agree-append h k)
  Agree-append (leaves a x f h) k = leaves a x f (Agree-append h k)

dir_of-Agree :
    (n : ℕ) (name : Bytes) (t t' : Tree) → Below n t t' → Agree n (dir_of name t) (dir_of name t')
unfolding dir_of
dir_of-Agree n [] t t' h = ends
dir_of-Agree zero (c ∷ cs) t t' h = cut (c ∷ cs) t t' refl ends
dir_of-Agree (suc n) (c ∷ cs) t t' h = dirs n (c ∷ cs) refl h ends

all_of-Agree :
    {A : Type 0} (n : ℕ) (f g : A → Tree)
    → ((x : A) → Agree n (f x) (g x))
    → (xs : List A) → Agree n (all_of f xs) (all_of g xs)
unfolding all_of
all_of-Agree n f g h [] = ends
all_of-Agree n f g h (x ∷ xs) = Agree-append _ _ (h x) (all_of-Agree n f g h xs)

listed-Agree :
    (q : Query) {n : ℕ} {t u : Tree}
    → Agree n t u
    → (found : Found) → listed q t found ≡ listed q u found
unfolding listed
listed-Agree q ends found = refl
listed-Agree q (cut a c d e h) found = listed-Agree q h _
listed-Agree q (dirs m a e g h) found = listed-Agree q h _
listed-Agree q (leaves a x f h) found = listed-Agree q h _

-- What a path of at most n names finds.
resolve-Agree :
    (q : Query) (found : Found) {n : ℕ} {t u : Tree} (c : Bytes) (xs : Names)
    → length xs < n
    → Agree n t u
    → outcome q (resolve t c xs) found ≡ outcome q (resolve u c xs) found
unfolding resolve outcome
resolve-Agree q found c xs lt ends = refl
resolve-Agree q found c xs lt (cut a d e z h) = absurd (omega arith)
resolve-Agree q found c [] lt (dirs m a e g h) = elim (Bool-cases (bytes_eq a c)) [
  | inl here ↦ rw here (
      let (rc, begun) = dir_begin q found in
      ap (λ (x : Found). if is_zero rc then (pos 0, x) else (rc, begun)) (listed-Agree q g begun))
  | inr other ↦ rw other (resolve-Agree q found c [] lt h)
]
resolve-Agree q found c (x ∷ xs) lt (dirs m a e g h) = elim (Bool-cases (bytes_eq a c)) [
  | inl here ↦ rw here (resolve-Agree q found (x.0) xs (omega arith) g)
  | inr other ↦ rw other (resolve-Agree q found c (x ∷ xs) lt h)
]
resolve-Agree q found c [] lt (leaves a d f h) = elim (Bool-cases (bytes_eq a c)) [
  | inl here ↦ rw here refl
  | inr other ↦ rw other (resolve-Agree q found c [] lt h)
]
resolve-Agree q found c (x ∷ xs) lt (leaves a d f h) = elim (Bool-cases (bytes_eq a c)) [
  | inl here ↦ rw here refl
  | inr other ↦ rw other (resolve-Agree q found c (x ∷ xs) lt h)
]

option-Agree :
    {A : Type 0} (n : ℕ) (x : Option A) (f g : A → Tree)
    → ((a : A) → Agree n (f a) (g a))
    → Agree n (elim x [ none ↦ end | some a ↦ f a ]) (elim x [ none ↦ end | some a ↦ g a ])
option-Agree n none f g h = ends
option-Agree n (some a) f g h = h a

option-Below :
    {A : Type 0} (n : ℕ) (x : Option A) (f g : A → Tree)
    → ((a : A) → Below n (f a) (g a))
    → Below n (elim x [ none ↦ end | some a ↦ f a ]) (elim x [ none ↦ end | some a ↦ g a ])
option-Below zero x f g h = tt
option-Below (suc n) x f g h = option-Agree n x f g h

module _ (net : Network) (self : Djfs)
    (search_tree : Bytes → DidlObject → Option Bytes → Tree) where
  object_tree-Agree :
      (n : ℕ) (dev : Bytes) (f g : DidlObject → List DidlObject → Tree)
      → ((o : DidlObject) (os : List DidlObject) → Below n (f o os) (g o os))
      → (o : DidlObject)
      → Agree n
          (object_tree net self search_tree dev f o)
          (object_tree net self search_tree dev g o)
  unfolding object_tree
  object_tree-Agree n dev f g h o = elim (Bool-cases o.is_container) [
    | inr file ↦ rw file (Agree-refl n _)
    | inl container ↦ rw container (
        dir_of-Agree n o.basename _ _
          (option-Below n (net.browse dev o.id direct_children) (f o) (g o) (h o)))
  ]

  children_tree-Agree :
      (n f g : ℕ) (dev : Bytes) (searchable : Bool) (c : Option Bytes) (parent : DidlObject)
      (os : List DidlObject)
      → n < f
      → n < g
      → Agree n
          (children_tree net self search_tree f dev searchable c parent os)
          (children_tree net self search_tree g dev searchable c parent os)
  unfolding children_tree
  children_tree-Agree n zero g dev searchable c parent os lt lt' = absurd (omega arith)
  children_tree-Agree n (suc f) zero dev searchable c parent os lt lt' = absurd (omega arith)
  children_tree-Agree zero (suc f) (suc g) dev searchable c parent os lt lt' =
      Agree-append _ _ (all_of-Agree zero _ _ (object_tree-Agree zero dev _ _ (λ o os'. tt)) os)
        (Agree-refl zero _)
  children_tree-Agree (suc n) (suc f) (suc g) dev searchable c parent os lt lt' =
      Agree-append _ _
        (all_of-Agree (suc n) _ _
          (object_tree-Agree (suc n) dev _ _ (λ o os'.
            children_tree-Agree n f g dev (searchable && is_null c) none o os' (omega arith)
              (omega arith)))
          os)
        (Agree-refl (suc n) _)

  contents_tree-Agree :
      (n f g : ℕ) (dev : Bytes)
      → n < f
      → n < g
      → Agree n
          (contents_tree net self search_tree f dev)
          (contents_tree net self search_tree g dev)
  unfolding contents_tree
  contents_tree-Agree n f g dev lt lt' =
      option-Agree n (net.browse dev (codes "0") metadata) _ _ (λ roots.
        option-Agree n (head_of roots) _ _ (λ root.
          option-Agree n (net.browse dev (codes "0") direct_children) _ _ (λ os.
            children_tree-Agree n f g dev
              (can_search self.search_hist (net.capabilities dev) root.searchable) none root os lt
              lt')))

  device_tree-Below :
      (n f g : ℕ) (dev : Bytes)
      → n ≤ f
      → n ≤ g
      → Below n
          (append (status_tree net self search_tree dev) (contents_tree net self search_tree f dev))
          (append (status_tree net self search_tree dev) (contents_tree net self search_tree g dev))
  device_tree-Below zero f g dev le le' = tt
  device_tree-Below (suc n) f g dev le le' =
      Agree-append _ _ (Agree-refl n _) (contents_tree-Agree n f g dev (omega arith) (omega arith))

  djfs_tree-Agree :
      (n f g : ℕ)
      → n ≤ f
      → n ≤ g
      → Agree n (djfs_tree net self search_tree f) (djfs_tree net self search_tree g)
  unfolding djfs_tree device_tree
  djfs_tree-Agree n f g le le' =
      let devices = leaf_of dt_reg (some (codes "devices")) (set_devices net self search_tree) in
      Agree-append _ _ (Agree-refl n devices) (
        all_of-Agree n _ _ (λ dev. dir_of-Agree n dev _ _ (device_tree-Below n f g dev le le'))
          (names_or_none net.names))

append-end : (t : Tree) → append t end ≡ t
unfolding append
append-end end = refl
append-end (dir a c r) = ap (dir a c) (append-end r)
append-end (leaf a x f r) = ap (leaf a x f) (append-end r)

answer-Agree :
    (q : Query) (found : Found) {n : ℕ} {t u : Tree} (names : Names)
    → length names ≤ n
    → Agree n t u
    → outcome q (answer t names) found ≡ outcome q (answer u names) found
unfolding answer outcome
answer-Agree q found [] le h =
    (let (rc, begun) = dir_begin q found in
      ap (λ (x : Found). if is_zero rc then (pos 0, x) else (rc, begun)) (listed-Agree q h begun))
answer-Agree q found ((c, k) ∷ names) le h = resolve-Agree q found c names (omega arith) h

-- A tree as deep as the path has names is deep enough: a deeper one has the same result for it.
pub answer-djfs_tree :
    (net : Network) (self : Djfs) (search_tree : Bytes → DidlObject → Option Bytes → Tree)
    (q : Query) (found : Found) (names : Names) (depth : ℕ)
    → length names ≤ depth
    → outcome q (answer (append (djfs_tree net self search_tree depth) end) names) found
      ≡ outcome q (answer (djfs_tree net self search_tree (length names)) names) found
answer-djfs_tree net self search_tree q found names depth le =
    ap (λ t. outcome q (answer t names) found) (append-end (djfs_tree net self search_tree depth))
    ∙ answer-Agree q found names (omega arith)
        (djfs_tree-Agree net self search_tree (length names) depth (length names) le (omega arith))
