-- ===== src/ContentDir/Action.antt =====
-- djmount/content_dir.c: what one request adds.
use djmount.Base.{
  ℕ, suc, ◌+◌, ◌-◌, ◌<◌, Bool, true, false, ◌≡◌, refl, sym, ap, ◌∙◌, List, [], ◌∷◌, ◌++◌,
  append-nil, append_assoc, Option, none, some, arith,
}
use djmount.Base.Lists.{length, length-append, get_elem?}
use djmount.Base.Tests.{ltb, lt→ltb, le→ltb}
use djmount.DidlObject.{Element, DidlObject, create_object}
use djmount.ContentDir.{append_object, object_at, append_objects}

abbrev pub add_created : Option DidlObject → List DidlObject → List DidlObject
add_created none os = os
add_created (some o) os = o ∷ os

-- The objects that elements make, in their order.
unfoldable pub created : List Element → Bool → List DidlObject
created [] container = []
created (e ∷ es) container = add_created (create_object (some e) container) (created es container)

add_created-append :
    (o : Option DidlObject) (xs ys : List DidlObject)
    → add_created o xs ++ ys ≡ add_created o (xs ++ ys)
add_created-append none xs ys = refl
add_created-append (some o) xs ys = refl

append-add_created :
    (os : List DidlObject) (o : Option DidlObject) (rest : List DidlObject)
    → append_object os o ++ rest ≡ os ++ add_created o rest
append-add_created os none rest = refl
append-add_created os (some o) rest = append_assoc os (o ∷ []) rest

get_elem?-middle :
    (before after : List Element) (x : Element)
    → get_elem? (before ++ x ∷ after) (length before) ≡ some x
get_elem?-middle [] after x = refl
get_elem?-middle (y ∷ before) after x = get_elem?-middle before after x

length-snoc :
    (before : List Element) (x : Element) → length (before ++ x ∷ []) ≡ suc (length before)
length-snoc before x = omega (arith, length-append before (x ∷ []))

object_at-container :
    (cs is before after : List Element) (x : Element)
    → cs ≡ before ++ x ∷ after
    → object_at cs is (length before) ≡ create_object (some x) true
unfolding object_at
object_at-container cs is before after x e =
    let size : length before < length cs =
      omega (arith, ap (λ l. length l) e, length-append before (x ∷ after)) in
    let first : ltb (length before) (length cs) ≡ true = lt→ltb (length before) (length cs) size in
    let here : get_elem? cs (length before) ≡ some x =
      ap (λ l. get_elem? l (length before)) e ∙ get_elem?-middle before after x in
    rw (object_at, first, here) refl

object_at-item :
    (cs is before after : List Element) (x : Element)
    → is ≡ before ++ x ∷ after
    → object_at cs is (length cs + length before) ≡ create_object (some x) false
unfolding object_at
object_at-item cs is before after x e =
    let i = length cs + length before in
    let second : ltb i (length cs) ≡ false = le→ltb i (length cs) (omega arith) in
    let index : i - length cs ≡ length before = omega arith in
    let here : get_elem? is (length before) ≡ some x =
      ap (λ l. get_elem? l (length before)) e ∙ get_elem?-middle before after x in
    rw (object_at, second, index, here) refl

-- The loop in its rounds over the items.
append_objects-items :
    (cs is before after : List Element) (i : ℕ) (os : List DidlObject)
    → is ≡ before ++ after
    → i ≡ length cs + length before
    → append_objects cs is i (length after) os ≡ os ++ created after false
unfolding append_objects created
append_objects-items cs is before [] i os e at = sym (append-nil os)
append_objects-items cs is before (x ∷ after) i os e at =
    let next = append_object os (object_at cs is i) in
    let here : object_at cs is i ≡ create_object (some x) false =
      rw at (object_at-item cs is before after x e) in
    let rest =
      append_objects-items cs is (before ++ x ∷ []) after (suc i) next
        (e ∙ sym (append_assoc before (x ∷ []) after)) (omega (arith, at, length-snoc before x)) in
    rest
    ∙ ap (λ o. append_object os o ++ created after false) here
    ∙ append-add_created os (create_object (some x) false) (created after false)

-- The loop in its rounds over the containers, and then over the items.
append_objects-containers :
    (cs is before after : List Element) (i : ℕ) (os : List DidlObject)
    → cs ≡ before ++ after
    → i ≡ length before
    → append_objects cs is i (length after + length is) os
      ≡ os ++ (created after true ++ created is false)
unfolding append_objects created
append_objects-containers cs is before [] i os e at =
    let all : i ≡ length cs + length {A = Element} [] =
      omega (arith, at, ap (λ l. length l) e, length-append before []) in
    let count : length {A = Element} [] + length is ≡ length is = omega arith in
    rw count (append_objects-items cs is [] is i os refl all)
append_objects-containers cs is before (x ∷ after) i os e at =
    let next = append_object os (object_at cs is i) in
    let made = create_object (some x) true in
    let here : object_at cs is i ≡ made = rw at (object_at-container cs is before after x e) in
    let rest =
      append_objects-containers cs is (before ++ x ∷ []) after (suc i) next
        (e ∙ sym (append_assoc before (x ∷ []) after)) (omega (arith, at, length-snoc before x)) in
    let count : length (x ∷ after) + length is ≡ suc (length after + length is) = omega arith in
    let more = created after true ++ created is false in
    let shape : add_created made (created after true) ++ created is false ≡ add_created made more =
      add_created-append made (created after true) (created is false) in
    rw count (
      rest
      ∙ ap (λ o. append_object os o ++ more) here
      ∙ append-add_created os made more
      ∙ ap (λ l. os ++ l) (sym shape))

-- All the containers of an answer come before all its items.
pub append_objects_lem :
    (cs is : List Element) (os : List DidlObject)
    → append_objects cs is 0 (length cs + length is) os
      ≡ os ++ (created cs true ++ created is false)
append_objects_lem cs is os = append_objects-containers cs is [] cs 0 os refl refl
