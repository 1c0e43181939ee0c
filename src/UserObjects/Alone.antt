-- ===== src/UserObjects/Alone.antt =====
-- Objects of src/vsg/core/Object.cpp whose Auxiliary is their own: what its making and a change of its
-- _objectMap do to the user objects of all.
use vsg.Base.{
  ℕ, zero, suc, ◌≡◌, ◌≢◌, ◌⊎◌, inl, inr, refl, sym, ap, ◌∙◌, true, false, Option, none, some, List,
  [], ◌∷◌, ◌++◌, length, ◌==◌, ==_refl, if◌then◌else◌, arith, Option-cases,
}
use vsg.Base.Word.{add32}
use vsg.Base.Entries.{Entries}
use vsg.RefPtr.{get, set}
use vsg.RefPtr.Cells.{get-set_same, get-set_other}
use vsg.UserObjects.{
  Auxiliary, Store, present, at, point, attach, is_connected, get_or_create_unique_auxiliary,
  change, objects_at, objects_of,
}
use vsg.UserObjects.Maps.{ascending}

-- The user objects of an object.
abbrev pub user : ℕ → Store → Option Entries
user o s = objects_of s (s.auxiliary o)

-- Every object that has an Auxiliary is connected to it, has the one reference to it, and the keys of its
-- user objects ascend.
abbrev pub Alone : Store → Type 0
Alone s =
    (o a : ℕ)
    → s.auxiliary o ≡ some a
    → (x : Auxiliary) × (at s a ≡ some x)
      × (x.connected ≡ some o)
      × (x.count ≡ 1)
      × (ascending x.objects ≡ true)

-- A change that leaves an object with the user objects `l`, and all others with theirs.
abbrev pub Updates : Option Store → Store → ℕ → Entries → Type 0
Updates r s o l =
    (s' : Store) × (r ≡ some s')
    × Alone s'
    × ((o' : ℕ) → user o' s' ≡ (if o == o' then some l else user o' s))

equal_or : (a b : ℕ) → (a ≡ b) ⊎ (a ≢ b)
equal_or a b = ground arith

unequal : (a b : ℕ) → a ≢ b → (a == b) ≡ false
unequal a b h = ground arith

present-some :
    (m : Option (Option Auxiliary)) (x : Auxiliary) → present m ≡ some x → m ≡ some (some x)
present-some none x h = cc h
present-some (some none) x h = cc h
present-some (some (some y)) x h = cc h

module _ (s : Store) (a : ℕ) (x : Auxiliary) (found : at s a ≡ some x) (y : Option Auxiliary) where
  abbrev put : Store
  put = record s { auxiliaries = set a y s.auxiliaries }

  pub at-put_same : at put a ≡ y
  unfolding at
  at-put_same =
      ap present
        (get-set_same s.auxiliaries a (some x) y (present-some (get s.auxiliaries a) x found))

  pub at-put_other : (b : ℕ) → a ≢ b → at put b ≡ at s b
  unfolding at
  at-put_other b n = ap present (get-set_other s.auxiliaries a b y n)

owner :
    (s : Store) → Alone s → (o o' a : ℕ) → s.auxiliary o ≡ some a → s.auxiliary o' ≡ some a → o ≡ o'
owner s alone o o' a h h' =
    let (x, found, connected, _, _) = alone o a h in
    let (x', found', connected', _, _) = alone o' a h' in
    let same : x ≡ x' = cc (found, found') in cc (connected, connected', same)

module _ (f : Entries → Entries)
    (keeps : (l : Entries) → ascending l ≡ true → ascending (f l) ≡ true) (o : ℕ) (s : Store)
    (alone : Alone s) (a : ℕ) (has : s.auxiliary o ≡ some a) (x : Auxiliary)
    (found : at s a ≡ some x) where
  abbrev changed : Auxiliary
  changed = record x { objects = f x.objects }

  abbrev after : Store
  after = put s a x found (some changed)

  after-Alone : Alone after
  after-Alone o' a' has' = elim (equal_or a a') [
    | inl e ↦
        let (x', found', connected, one, up) = alone o' a' has' in
        let same : x ≡ x' = cc (found, found', ap (at s) e) in
        (
          changed,
          rw (sym e) (at-put_same s a x found (some changed)),
          ap (λ z. z.connected) same ∙ connected,
          ap (λ z. z.count) same ∙ one,
          keeps x.objects (ap (λ z. ascending z.objects) same ∙ up),
        )
    | inr n ↦
        let (x', found', connected, one, up) = alone o' a' has' in
        (x', at-put_other s a x found (some changed) a' n ∙ found', connected, one, up)
  ]

  others :
      (o' : ℕ) (m : Option ℕ) → o ≢ o' → s.auxiliary o' ≡ m → objects_of after m ≡ objects_of s m
  others o' none n e = refl
  others o' (some a') n e = ap objects_at (
      at-put_other s a x found (some changed) a'
        (λ same. n (owner s alone o o' a has (e ∙ ap some (sym same)))))

  after-user : (l : Entries) → user o s ≡ some l → user o after ≡ some (f l)
  after-user l u =
      let here : objects_of s (some a) ≡ some l = rw has at u in
      let same : some x.objects ≡ some l = sym (ap objects_at found) ∙ here in
      let eq : x.objects ≡ l = cc same in rw (has, at-put_same s a x found (some changed), eq) refl

  pub change-Updates : (l : Entries) → user o s ≡ some l → Updates (change f o s) s o (f l)
  unfolding change
  change-Updates l u = (
    after,
    rw (has, found) refl,
    after-Alone,
    λ o'. elim (equal_or o o') [
      | inl e ↦ rw (sym e, ==_refl o) (after-user l u)
      | inr n ↦ rw (unequal o o' n) (others o' (s.auxiliary o') n refl)
    ],
  )

module _ {ℓ} {A : Type ℓ} where
  get-append_old : (xs ys : List A) (i : ℕ) (x : A) → get xs i ≡ some x → get (xs ++ ys) i ≡ some x
  get-append_old [] ys i x h = cc h
  get-append_old (z ∷ xs) ys zero x h = h
  get-append_old (z ∷ xs) ys (suc i) x h = get-append_old xs ys i x h

  get-append_new : (xs ys : List A) (y : A) → get (xs ++ y ∷ ys) (length xs) ≡ some y
  get-append_new [] ys y = refl
  get-append_new (z ∷ xs) ys y = get-append_new xs ys y

module _ (o : ℕ) (s : Store) (alone : Alone s) (free : s.auxiliary o ≡ none) where
  abbrev made : Auxiliary
  made = record { count = add32 0 1; connected = some o; allocator = none; objects = [] }

  at_new : at (attach o none s) (length s.auxiliaries) ≡ some made
  unfolding at attach
  at_new = ap present (get-append_new s.auxiliaries [] (some made))

  at_old : (a : ℕ) (x : Auxiliary) → at s a ≡ some x → at (attach o none s) a ≡ some x
  unfolding at attach
  at_old a x h = ap present (
      get-append_old s.auxiliaries (some made ∷ []) a (some x)
        (present-some (get s.auxiliaries a) x h))

  owned : (attach o none s).auxiliary o ≡ some (length s.auxiliaries)
  unfolding attach point
  owned = rw (==_refl o) refl

  unowned : (o' : ℕ) → o ≢ o' → (attach o none s).auxiliary o' ≡ s.auxiliary o'
  unfolding attach point
  unowned o' n = rw (unequal o o' n) refl

  attach-Alone : Alone (attach o none s)
  unfolding ascending add32
  attach-Alone o' a h = elim (equal_or o o') [
    | inl e ↦
        let where_made : length s.auxiliaries ≡ a = cc (owned, rw (sym e) at h) in
        (made, rw (sym where_made) at_new, ap some e, refl, refl)
    | inr n ↦
        let (x, found, connected, one, up) = alone o' a (sym (unowned o' n) ∙ h) in
        (x, at_old a x found, connected, one, up)
  ]

  attach-user : (o' : ℕ) → user o' (attach o none s) ≡ user o' s
  attach-user o' = elim (equal_or o o') [
    | inl e ↦ rw (sym e, owned, at_new, free) refl
    | inr n ↦ rw (unowned o' n) (old (s.auxiliary o') refl)
  ]
    where
      old : (m : Option ℕ) → s.auxiliary o' ≡ m → objects_of (attach o none s) m ≡ objects_of s m
      old none e = refl
      old (some a) e = let (x, found, _, _, _) = alone o' a e in rw (at_old a x found, found) refl

-- getOrCreateUniqueAuxiliary() gives the object an Auxiliary and leaves the user objects of all as they are.
pub create_lem :
    (o : ℕ) (s : Store)
    → Alone s
    → (s' : Store) × (get_or_create_unique_auxiliary o s ≡ some s')
      × Alone s'
      × (a : ℕ) × (s'.auxiliary o ≡ some a)
      × ((o' : ℕ) → user o' s' ≡ user o' s)
unfolding get_or_create_unique_auxiliary is_connected
create_lem o s alone = elim (Option-cases (s.auxiliary o)) [
  | inl free ↦ (
    attach o none s,
    rw free refl,
    attach-Alone o s alone free,
    length s.auxiliaries,
    owned o s alone free,
    attach-user o s alone free,
  )
  | inr (a, has) ↦
      let (x, found, connected, _, _) = alone o a has in
      (s, rw (has, found, connected, ==_refl o) refl, alone, a, has, λ o'. refl)
]
