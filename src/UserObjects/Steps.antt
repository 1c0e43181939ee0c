-- ===== src/UserObjects/Steps.antt =====
-- The operations on user objects of src/vsg/core/Object.cpp, as changes of a map for each object.
use mathlib.Core.Path.{fun_ext}
use vsg.Base.{
  ℕ, ◌≡◌, inl, inr, refl, sym, ap, ◌∙◌, Bool, true, false, ◌&&◌, Option, none, some, [], ◌==◌,
  ==_refl, ==_iff, if◌then◌else◌, Bool-cases,
}
use vsg.Base.Entries.{Entries, find, assign, erase}
use vsg.RefPtr.{then_do}
use vsg.UserObjects.{
  Store, at, is_connected, get_or_create_unique_auxiliary, change, change_at, set_object,
  get_object, remove_object, remove_of, or_null, objects_of, assign_object, copy_object, point,
  copy_of,
}
use vsg.UserObjects.Maps.{ascending, ascending-assign, ascending-erase, find-assign, find-erase}
use vsg.UserObjects.Alone.{user, Alone, Updates, change-Updates, create_lem}

user-some :
    (o : ℕ) (s : Store) → Alone s → (l : Entries) × (user o s ≡ some l) × (ascending l ≡ true)
unfolding ascending
user-some o s alone = go (s.auxiliary o) refl
  where
    go :
        (m : Option ℕ)
        → s.auxiliary o ≡ m
        → (l : Entries) × (objects_of s m ≡ some l) × (ascending l ≡ true)
    go none e = ([], refl, refl)
    go (some a) e = let (x, found, _, _, up) = alone o a e in (x.objects, rw found refl, up)

-- A change after getOrCreateUniqueAuxiliary().
create-Updates :
    (f : Entries → Entries) (keeps : (l : Entries) → ascending l ≡ true → ascending (f l) ≡ true)
    (o : ℕ) (s : Store) (l : Entries)
    → Alone s
    → user o s ≡ some l
    → Updates (then_do (get_or_create_unique_auxiliary o s) (change f o)) s o (f l)
create-Updates f keeps o s l alone u =
    let (s1, e1, alone1, a, has, same) = create_lem o s alone in
    let (x, found, _, _, _) = alone1 o a has in
    let (s', e2, alone', view) = change-Updates f keeps o s1 alone1 a has x found l (same o ∙ u) in
    (s', rw e1 e2, alone', λ o'. view o' ∙ ap (λ m. if o == o' then some (f l) else m) (same o'))

-- What an operation makes of one user object, and of no other.
abbrev pub Sets : Option Store → Store → ℕ → ℕ → ℕ → Type 0
Sets r s o key v =
    (s' : Store) × (r ≡ some s')
    × Alone s'
    × ((o' key' : ℕ)
        → get_object o' key' s' ≡ (if o == o' && key == key' then some v else get_object o' key' s))

module _ (o key v : ℕ) (s : Store) (l m : Entries) (u : user o s ≡ some l)
    (one : (k : ℕ) → or_null (find k m) ≡ (if key == k then v else or_null (find k l))) where
  seen :
      (k : ℕ) (b c : Bool) (now was : Option Entries)
      → now ≡ (if b then some m else was)
      → (b ≡ true → was ≡ some l)
      → or_null (find k m) ≡ (if c then v else or_null (find k l))
      → then_do now (λ t. some (or_null (find k t)))
        ≡ (if b && c then some v else then_do was (λ t. some (or_null (find k t))))
  seen k false c now was e h q = ap (λ t. then_do t (λ t. some (or_null (find k t)))) e
  seen k true false now was e h q = rw (e, h refl) (ap some q)
  seen k true true now was e h q = rw e (ap some q)

  Updates-Sets : (r : Option Store) → Updates r s o m → Sets r s o key v
  unfolding get_object
  Updates-Sets r (s', e, alone', view) = (
    s',
    e,
    alone',
    λ o' key'.
        seen key' (o == o') (key == key') (user o' s') (user o' s) (view o')
          (λ h. ap (λ n. user n s) (sym ((==_iff o o').0 h)) ∙ u) (one key'),
  )

or_null-assign :
    (key v k : ℕ) (l : Entries)
    → or_null (find k (assign key v l)) ≡ (if key == k then v else or_null (find k l))
or_null-assign key v k l = elim (Bool-cases (key == k)) [
  | inl h ↦ rw (find-assign key v k l, h) refl
  | inr h ↦ rw (find-assign key v k l, h) refl
]

or_null-erase :
    (key k : ℕ) (l : Entries)
    → ascending l ≡ true
    → or_null (find k (erase key l)) ≡ (if key == k then 0 else or_null (find k l))
or_null-erase key k l up = elim (Bool-cases (key == k)) [
  | inl h ↦ rw (find-erase key k l up, h) refl
  | inr h ↦ rw (find-erase key k l up, h) refl
]

set_object-Sets : (o key v : ℕ) (s : Store) → Alone s → Sets (set_object o key v s) s o key v
unfolding set_object
set_object-Sets o key v s alone =
    let (l, u, up) = user-some o s alone in
    Updates-Sets o key v s l (assign key v l) u (λ k. or_null-assign key v k l)
      (set_object o key v s) (create-Updates (assign key v) (ascending-assign key v) o s l alone u)

unchanged : (o : ℕ) (s : Store) (l : Entries) → Alone s → user o s ≡ some l → Updates (some s) s o l
unchanged o s l alone u = (
  s,
  refl,
  alone,
  λ o'. elim (Bool-cases (o == o')) [
    | inl h ↦ rw h (ap (λ n. user n s) (sym ((==_iff o o').0 h)) ∙ u)
    | inr h ↦ rw h refl
  ],
)

change_has :
    (f : Entries → Entries) (o : ℕ) (s : Store) (a : ℕ)
    → s.auxiliary o ≡ some a
    → change f o s ≡ change_at f a s (at s a)
unfolding change
change_has f o s a e = rw e refl

remove_object-Updates :
    (o key : ℕ) (s : Store) (l : Entries)
    → Alone s
    → user o s ≡ some l
    → Updates (remove_object o key s) s o (erase key l)
unfolding remove_object erase
remove_object-Updates o key s l alone u = go (s.auxiliary o) refl
  where
    go : (m : Option ℕ) → s.auxiliary o ≡ m → Updates (remove_of key s m) s o (erase key l)
    go none e =
        let empty : [] ≡ l = cc (rw e at u) in rw (sym empty) (unchanged o s [] alone (rw e refl))
    go (some a) e =
        let (x, found, _, _, _) = alone o a e in
        let (s', e', alone', view) =
          change-Updates (erase key) (ascending-erase key) o s alone a e x found l u in
        (s', sym (change_has (erase key) o s a e) ∙ e', alone', view)

remove_object-Sets : (o key : ℕ) (s : Store) → Alone s → Sets (remove_object o key s) s o key 0
remove_object-Sets o key s alone =
    let (l, u, up) = user-some o s alone in
    Updates-Sets o key 0 s l (erase key l) u (λ k. or_null-erase key k l up) (remove_object o key s)
      (remove_object-Updates o key s l alone u)

-- setObject() and removeObject() of an object change the user object of that key and no other, of no
-- other object.
pub set_remove_lem :
    (o key v : ℕ) (s : Store)
    → Alone s
    → Sets (set_object o key v s) s o key v × Sets (remove_object o key s) s o key 0
set_remove_lem o key v s alone = (set_object-Sets o key v s alone, remove_object-Sets o key s alone)

abbrev pub is_some : Option ℕ → Bool
is_some none = false
is_some (some a) = true

copy_of-Updates :
    (o rhs : ℕ) (s : Store) (l : Entries) (a : ℕ)
    → Alone s
    → user rhs s ≡ some l
    → s.auxiliary rhs ≡ some a
    → Updates (copy_of o rhs s (some a)) s o l
unfolding is_connected
copy_of-Updates o rhs s l a alone u e =
    let (x, found, connected, _, up) = alone rhs a e in
    let (old, was, _) = user-some o s alone in
    let same : x.objects ≡ l = cc (rw (e, found) at u) in
    rw (found, connected, ==_refl rhs, sym same)
      (create-Updates (λ t. x.objects) (λ t h. up) o s old alone was)

-- The user objects of `o` after it has been given those of `rhs`, when there are any.
abbrev pub Copies : Option Store → Store → ℕ → ℕ → Type 0
Copies r s o rhs =
    (s' : Store) × (r ≡ some s')
    × Alone s'
    × ((o' key : ℕ)
        → get_object o' key s' ≡ (
            if o == o' && is_some (s.auxiliary rhs)
            then get_object rhs key s
            else get_object o' key s))

if_equal : {A : Type 0} (b c : Bool) (x y : A) → (b ≡ true → y ≡ x) → y ≡ (if b && c then x else y)
if_equal true true x y h = h refl
if_equal true false x y h = refl
if_equal false c x y h = refl

if_not : {A : Type 0} (b : Bool) (x y : A) → y ≡ (if b && false then x else y)
if_not true x y = refl
if_not false x y = refl

Updates-Copies :
    (r : Option Store) (o rhs : ℕ) (s : Store) (l : Entries)
    → user rhs s ≡ some l
    → is_some (s.auxiliary rhs) ≡ true
    → Updates r s o l
    → Copies r s o rhs
unfolding get_object
Updates-Copies r o rhs s l u h (s', e, alone', view) = (
  s',
  e,
  alone',
  λ o' key. elim (Bool-cases (o == o')) [
    | inl q ↦ rw (view o', q, h, u) refl
    | inr q ↦ rw (view o', q) refl
  ],
)

copy_of-Copies :
    (o rhs : ℕ) (s : Store) (m : Option ℕ)
    → Alone s
    → s.auxiliary rhs ≡ m
    → Copies (copy_of o rhs s m) s o rhs
copy_of-Copies o rhs s none alone e =
    (s, refl, alone, λ o' key. rw e (if_not (o == o') (get_object rhs key s) (get_object o' key s)))
copy_of-Copies o rhs s (some a) alone e =
    let (l, u, _) = user-some rhs s alone in
    Updates-Copies (copy_of o rhs s (some a)) o rhs s l u (rw e refl)
      (copy_of-Updates o rhs s l a alone u e)

assign_object-Copies : (o rhs : ℕ) (s : Store) → Alone s → Copies (assign_object o rhs s) s o rhs
unfolding assign_object
assign_object-Copies o rhs s alone = elim (Bool-cases (rhs == o)) [
  | inl q ↦ (
    s,
    rw q refl,
    alone,
    λ o' key.
        if_equal (o == o') (is_some (s.auxiliary rhs)) (get_object rhs key s) (get_object o' key s)
          (λ h. ap (λ n. get_object n key s) (sym ((==_iff rhs o).0 q ∙ (==_iff o o').0 h))),
  )
  | inr q ↦ rw q (copy_of-Copies o rhs s (s.auxiliary rhs) alone refl)
]

-- A new object has no Auxiliary yet.
point-none : (o : ℕ) (f : ℕ → Option ℕ) → f o ≡ none → (o' : ℕ) → point o none f o' ≡ f o'
unfolding point
point-none o f h o' = elim (Bool-cases (o == o')) [
  | inl q ↦ rw q (sym (ap f (sym ((==_iff o o').0 q)) ∙ h))
  | inr q ↦ rw q refl
]

copy_object-Copies :
    (o rhs : ℕ) (s : Store) → Alone s → s.auxiliary o ≡ none → Copies (copy_object o rhs s) s o rhs
unfolding copy_object
copy_object-Copies o rhs s alone free =
    let fresh : point o none s.auxiliary ≡ s.auxiliary = fun_ext (point-none o s.auxiliary free) in
    rw fresh (copy_of-Copies o rhs s (s.auxiliary rhs) alone refl)

-- The user objects after operator=, of `o`, and after Object(const Object&), of the new object `n`: those of
-- `rhs` when it has an Auxiliary, and all other objects have theirs.
pub copy_lem :
    (o n rhs : ℕ) (s : Store)
    → Alone s
    → s.auxiliary n ≡ none
    → Copies (assign_object o rhs s) s o rhs × Copies (copy_object n rhs s) s n rhs
copy_lem o n rhs s alone free =
    (assign_object-Copies o rhs s alone, copy_object-Copies n rhs s alone free)
