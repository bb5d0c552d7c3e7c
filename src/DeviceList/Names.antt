-- ===== src/DeviceList/Names.antt =====
-- djmount/device_list.c: the names of the devices, and `make_device_name`.
use djmount.Base.{
  ℕ, zero, suc, ◌+◌, ◌≤◌, ◌<◌, true, false, ◌≡◌, ◌≢◌, refl, sym, ap, ◌∙◌, subst, ◌⊎◌, inl, inr,
  List, [], ◌∷◌, ◌++◌, Option, none, some, map, arith,
}
use mathlib.Core.List.{Memᴰ}
use mathlib.Core.List.Memᴰ.{head, tail}
use djmount.Base.Lists.{Bytes, length, length-append, bytes_eq, bytes_eq_sound, bytes_eq_refl, All}
use djmount.Base.Tests.{◌==◌, ==_iff, Bool-cases, Option-cases}
use djmount.Base.Text.{codes}
use djmount.Base.Decimal.{decimal, decimal_injective}
use djmount.Base.Distinct.{pigeonhole}
use djmount.Strings.{clean_file_name}
use djmount.DeviceList.{
  DeviceNode, candidate, find_name, get_device_node_from_name, name_loop, make_device_name,
  or_empty, base_name,
}

abbrev pub names : List DeviceNode → List Bytes
names = map (λ n. DeviceNode.name n)

pub bytes_ne : (a b : Bytes) → bytes_eq a b ≡ false → a ≢ b
bytes_ne a b h e = let same : bytes_eq a b ≡ true = rw e (bytes_eq_refl b) in cc

pub find_name-none :
    (name : Bytes) (ns : List DeviceNode)
    → find_name name ns ≡ none
    → All (λ y. y ≢ name) (names ns)
unfolding find_name
find_name-none name [] h = tt
find_name-none name (n ∷ ns) h = elim (Bool-cases (bytes_eq n.name name)) [
  | inl same ↦ let e : some n ≡ none = rw same at h in cc
  | inr other ↦ (bytes_ne n.name name other, find_name-none name ns (rw other at h))
]

pub find_name-some :
    (name : Bytes) (ns : List DeviceNode) (m : DeviceNode)
    → find_name name ns ≡ some m
    → Memᴰ m ns × (m.name ≡ name)
unfolding find_name
find_name-some name [] m h = cc
find_name-some name (n ∷ ns) m h = elim (Bool-cases (bytes_eq n.name name)) [
  | inl same ↦
      let found : some n ≡ some m = rw same at h in
      let e : n ≡ m = cc in
      (head (sym e), ap (λ k. DeviceNode.name k) (sym e) ∙ bytes_eq_sound n.name name same)
  | inr other ↦ let (among, e) = find_name-some name ns m (rw other at h) in (tail among, e)
]

longer : (a : Bytes) (c : ℕ) (b : Bytes) → a ≢ a ++ c ∷ b
longer a c b e =
    let same : length a ≡ length (a ++ c ∷ b) = ap length e in
    omega (arith, length-append a (c ∷ b))

append_cancel : (a b c : Bytes) → a ++ b ≡ a ++ c → b ≡ c
append_cancel [] b c e = e
append_cancel (x ∷ a) b c e = append_cancel a b c cc

-- The names that the loop tries differ.
candidate_injective :
    (name : Bytes) (i j : ℕ) → 1 ≤ i → 1 ≤ j → candidate name i ≡ candidate name j → i ≡ j
unfolding candidate
candidate_injective name i j hi hj e = elim (Bool-cases (i == 1)) [
  | inl a ↦ elim (Bool-cases (j == 1)) [
    | inl b ↦ ground arith
    | inr b ↦
        let e' : name ≡ name ++ (codes "_" ++ decimal j) = rw (a, b) at e in
        absurd (longer name b'_' (decimal j) e')
  ]
  | inr a ↦ elim (Bool-cases (j == 1)) [
    | inl b ↦
        let e' : name ++ (codes "_" ++ decimal i) ≡ name = rw (a, b) at e in
        absurd (longer name b'_' (decimal i) (sym e'))
    | inr b ↦
        let e' : name ++ (codes "_" ++ decimal i) ≡ name ++ (codes "_" ++ decimal j) =
          rw (a, b) at e in
        let digits : b'_' ∷ decimal i ≡ b'_' ∷ decimal j = append_cancel name _ _ e' in
        decimal_injective i j cc
  ]
]

-- The counter k gives a name that no device has, and those from i on before it do not.
abbrev pub IsFirst : List DeviceNode → Bytes → ℕ → ℕ → Type 0
IsFirst ns name i k =
    All (λ y. y ≢ candidate name k) (names ns)
    × ((j : ℕ) → i ≤ j → j < k → Memᴰ (candidate name j) (names ns))

pub Memᴰ-names : (n : DeviceNode) (ns : List DeviceNode) → Memᴰ n ns → Memᴰ n.name (names ns)
Memᴰ-names n [] m = elim m [ ]
Memᴰ-names n (x ∷ ns) (head e) = head (ap (λ k. DeviceNode.name k) e)
Memᴰ-names n (x ∷ ns) (tail m) = tail (Memᴰ-names n ns m)

find_name_among :
    (name : Bytes) (ns : List DeviceNode) (m : DeviceNode)
    → find_name name ns ≡ some m
    → Memᴰ name (names ns)
find_name_among name ns m h =
    let (among, e) = find_name-some name ns m h in
    subst (λ x. Memᴰ x (names ns)) e (Memᴰ-names m ns among)

or_next :
    (ns : List DeviceNode) (name : Bytes) (i j : ℕ)
    → i ≤ j
    → Memᴰ (candidate name i) (names ns)
    → (i + 1 ≤ j → Memᴰ (candidate name j) (names ns))
    → Memᴰ (candidate name j) (names ns)
or_next ns name i j h here next = elim (Bool-cases (i == j)) [
  | inl same ↦ subst (λ k. Memᴰ (candidate name k) (names ns)) ((==_iff i j).0 same) here
  | inr other ↦ next (ground arith)
]

name_loop_lem :
    (ns : List DeviceNode) (name : Bytes) (fuel i : ℕ)
    → ((k : ℕ) × (i ≤ k)
        × (k < i + fuel)
        × (name_loop ns name fuel i ≡ some (candidate name k))
        × IsFirst ns name i k)
      ⊎ ((j : ℕ) → i ≤ j → j < i + fuel → Memᴰ (candidate name j) (names ns))
unfolding name_loop get_device_node_from_name
name_loop_lem ns name zero i = inr (λ j h h'. absurd (omega arith))
name_loop_lem ns name (suc fuel) i = elim (Option-cases (find_name (candidate name i) ns)) [
  | inl free ↦ inl (
    i,
    omega arith,
    omega arith,
    rw (free, name_loop) refl,
    (find_name-none (candidate name i) ns free, λ j h h'. absurd (omega arith)),
  )
  | inr (m, taken) ↦
      let here = find_name_among (candidate name i) ns m taken in
      elim (name_loop_lem ns name fuel (i + 1)) [
        | inl (k, le, lt, run, (free, before)) ↦ inl (
          k,
          omega arith,
          omega arith,
          rw (taken, name_loop) run,
          (free, λ j h h'. or_next ns name i j h here (λ le. before j le h')),
        )
        | inr all ↦ inr (λ j h h'. or_next ns name i j h here (λ le. all j le (omega arith)))
      ]
]

length-names : (ns : List DeviceNode) → length (names ns) ≡ length ns
length-names [] = refl
length-names (n ∷ ns) = ap suc (length-names ns)

-- `make_device_name` ends. Its result is the base name, cleaned, if no device of the list has that
-- name, and else that with the least suffix from _2 on that gives a name that no device has.
pub make_device_name_lem :
    (ns : List DeviceNode) (base : Option Bytes)
    → (k : ℕ) × (1 ≤ k)
      × (k ≤ suc (length ns))
      × (make_device_name ns base
          ≡ some (candidate (or_empty (clean_file_name (some (base_name base)))) k))
      × IsFirst ns (or_empty (clean_file_name (some (base_name base)))) 1 k
unfolding make_device_name
make_device_name_lem ns base =
    let name = or_empty (clean_file_name (some (base_name base))) in
    elim (name_loop_lem ns name (suc (length ns)) 1) [
      | inl (k, le, lt, run, first) ↦ (k, le, omega arith, run, first)
      | inr all ↦
          let many =
            pigeonhole (λ k. candidate name (suc k)) (suc (length ns)) (names ns)
              (λ i j hi hj e.
                let same = candidate_injective name (suc i) (suc j) (omega arith) (omega arith) e in
                omega arith)
              (λ k lt. all (suc k) (omega arith) (omega arith)) in
          absurd (omega (arith, length-names ns))
    ]
