-- ===== src/Cache/Assoc.antt =====
-- djmount/cache.c: an association list is a hash table, one that takes every entry.
use djmount.Base.{
  ℕ, true, false, ◌≡◌, refl, sym, ap, ◌∙◌, subst, ◌⊎◌, inl, inr, List, [], ◌∷◌, Option, none, some,
}
use mathlib.Core.List.{Memᴰ}
use mathlib.Core.List.Memᴰ.{head, tail}
use djmount.Base.Lists.{Bytes, bytes_eq, bytes_eq_sound, bytes_eq_refl}
use djmount.Base.Tests.{if◌then◌else◌, Bool-cases}
use djmount.Cache.{HashTable, Laws}

abbrev pub Table : Type 0
Table = List (Bytes × ℕ)

abbrev pub lookup : Bytes → Table → Option ℕ
lookup k [] = none
lookup k ((j, p) ∷ t) = if bytes_eq j k then some p else lookup k t

abbrev pub delete : Bytes → Table → Table
delete k [] = []
delete k ((j, p) ∷ t) = let rest = delete k t in if bytes_eq j k then rest else (j, p) ∷ rest

abbrev pub add_found : Option ℕ → List ℕ → List ℕ
add_found none ps = ps
add_found (some p) ps = p ∷ ps

-- The addresses that the keys of s lead to in t.
abbrev pub collect : Table → Table → List ℕ
collect [] t = []
collect ((j, p) ∷ s) t = add_found (lookup j t) (collect s t)

abbrev pub assoc : HashTable Table
assoc = record {
  hash_initialize = λ size hasher comparator. some [];
  hash_lookup = lookup;
  hash_insert = λ key p t. some ((key, p) ∷ t);
  hash_delete = λ key t. (lookup key t, delete key t);
  hash_get_entries = λ t. collect t t;
}

lookup-delete :
    (key : Bytes) (t : Table) (k : Bytes)
    → lookup k (delete key t) ≡ (if bytes_eq key k then none else lookup k t)
lookup-delete key [] k = elim (Bool-cases (bytes_eq key k)) [
  | inl e ↦ rw e refl
  | inr e ↦ rw e refl
]
lookup-delete key ((j, p) ∷ t) k = elim (Bool-cases (bytes_eq j key)) [
  | inl same ↦
      let e : j ≡ key = bytes_eq_sound j key same in
      let at : bytes_eq j k ≡ bytes_eq key k = ap (λ x. bytes_eq x k) e in
      elim (Bool-cases (bytes_eq key k)) [
        | inl on ↦ rw (same, on) (lookup-delete key t k ∙ rw on refl)
        | inr off ↦ rw (same, at, off) (lookup-delete key t k ∙ rw off refl)
      ]
  | inr other ↦ elim (Bool-cases (bytes_eq j k)) [
    | inl here ↦
        let e : j ≡ k = bytes_eq_sound j k here in
        let off : bytes_eq key k ≡ false = elim (Bool-cases (bytes_eq key k)) [
          | inl on ↦
              let j_key : j ≡ key = e ∙ sym (bytes_eq_sound key k on) in
              let yes_key : bytes_eq j key ≡ true =
                subst (λ x. bytes_eq j x ≡ true) j_key (bytes_eq_refl j) in
              cc
          | inr off ↦ off
        ] in
        rw (other, here, off) refl
    | inr there ↦ rw (other, there) (lookup-delete key t k)
  ]
]

first_or : (x : Option ℕ) (ps : List ℕ) (p : ℕ) → Memᴰ p (add_found x ps) → (x ≡ some p) ⊎ Memᴰ p ps
first_or none ps p m = inr m
first_or (some q) ps p (head e) = inl (ap some (sym e))
first_or (some q) ps p (tail m) = inr m

add_found-first : (x : Option ℕ) (ps : List ℕ) (p : ℕ) → x ≡ some p → Memᴰ p (add_found x ps)
add_found-first none ps p e = cc
add_found-first (some q) ps p e = let same : q ≡ p = cc in head (sym same)

add_found-rest : (x : Option ℕ) (ps : List ℕ) (p : ℕ) → Memᴰ p ps → Memᴰ p (add_found x ps)
add_found-rest none ps p m = m
add_found-rest (some q) ps p m = tail m

collect-found :
    (s t : Table) (p : ℕ) → Memᴰ p (collect s t) → (key : Bytes) × (lookup key t ≡ some p)
collect-found [] t p m = elim m [ ]
collect-found ((j, q) ∷ s) t p m = elim (first_or (lookup j t) (collect s t) p m) [
  | inl at ↦ (j, at)
  | inr later ↦ collect-found s t p later
]

collect-listed :
    (s t : Table) (key : Bytes) (p q : ℕ)
    → lookup key s ≡ some q
    → lookup key t ≡ some p
    → Memᴰ p (collect s t)
collect-listed [] t key p q e at = cc
collect-listed ((j, r) ∷ s) t key p q e at = elim (Bool-cases (bytes_eq j key)) [
  | inl same ↦
      add_found-first (lookup j t) (collect s t) p
        (subst (λ x. lookup x t ≡ some p) (sym (bytes_eq_sound j key same)) at)
  | inr other ↦
      add_found-rest (lookup j t) (collect s t) p (collect-listed s t key p q (rw other at e) at)
]

pub assoc-Laws : Laws assoc
assoc-Laws = record {
  lookup-insert = λ key p t t' missing e k.
      let same : (key, p) ∷ t ≡ t' = cc in
      subst (λ x. lookup k x ≡ (if bytes_eq key k then some p else lookup k t)) same refl;
  lookup-delete = lookup-delete;
  deleted = λ key t. refl;
  listed = λ key t p e. collect-listed t t key p p e e;
  found = λ t p m. collect-found t t p m;
}
