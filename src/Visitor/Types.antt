-- ===== src/Visitor/Types.antt =====
-- is_compatible of include/vsg/core (Object.h, Inherit.h, Data.h, Array.h), the test that cast makes, and
-- the casts that the visitors make without one.
use vsg.Base.{
  ℕ, zero, suc, ◌≡◌, ◌↔◌, ◌⊎◌, refl, sym, ap, ◌∙◌, Bool, true, false, Option, none, some,
  if◌then◌else◌, inl, inr, Bool-cases, ◌==◌, ==_iff, ==_refl,
}
use vsg.Visitor.{Class, value, array2d, array3d, node, vulkan, node, commands, command, NodeClass}
use vsg.Visitor.Next.{next}
use vsg.Visitor.ConstNext.{const_next}
use vsg.Visitor.Bases.{base}
use vsg.Visitor.Number.{number, number-injective}
use vsg.Visitor.Dispatch.{onward, ends, ends_all, is_commands, next-base, const_next-base}

-- Whether the class overrides is_compatible: Value, Array2D and Array3D leave that of Data in place.
unfoldable pub overrides_is_compatible : Class → Bool
overrides_is_compatible (value c) = false
overrides_is_compatible (array2d c) = false
overrides_is_compatible (array3d c) = false
overrides_is_compatible _ = true

abbrev pub same_type : Class → Class → Bool
same_type c d = number c == number d

-- `c::is_compatible(typeid(t))`, on fuel for the base classes.
unfoldable pub is_compatible : ℕ → Class → Class → Bool
is_compatible zero c t = false
is_compatible (suc fuel) c t =
    let inherited = onward false (λ b. is_compatible fuel b t) (base c) in
    if overrides_is_compatible c then if same_type c t then true else inherited else inherited

-- An object of class `c` is an object of class `t`.
pub data IsA (t : Class) : Class → Type 0 where
  itself : (c : Class) → c ≡ t → IsA t c
  above : (c b : Class) → base c ≡ some b → IsA t b → IsA t c

same_type_sound : (c d : Class) → same_type c d ≡ true → c ≡ d
same_type_sound c d h = number-injective c d ((==_iff (number c) (number d)).0 h)

same_type_refl : (c d : Class) → c ≡ d → same_type c d ≡ true
same_type_refl c d e = rw e (==_refl (number d))

compatible-IsA :
    (fuel : ℕ) (c t : Class)
    → is_compatible fuel c t ≡ true
    → IsA t c × (overrides_is_compatible t ≡ true)
unfolding is_compatible
compatible-IsA zero c t h = cc h
compatible-IsA (suc fuel) c t h = elim (Bool-cases (overrides_is_compatible c)) [
  | inl o ↦ elim (Bool-cases (same_type c t)) [
    | inl s ↦ (
      itself c (same_type_sound c t s),
      sym (ap overrides_is_compatible (same_type_sound c t s)) ∙ o,
    )
    | inr s ↦ on_base fuel c (base c) refl t (compatible-IsA fuel) (rw (o, s) at h)
  ]
  | inr o ↦ on_base fuel c (base c) refl t (compatible-IsA fuel) (rw o at h)
]
  where
    on_base :
        (fuel : ℕ) (c : Class) (b : Option Class)
        → base c ≡ b
        → (t : Class)
        → ((d s : Class)
            → is_compatible fuel d s ≡ true
            → IsA s d × (overrides_is_compatible s ≡ true))
        → onward false (λ d. is_compatible fuel d t) b ≡ true
        → IsA t c × (overrides_is_compatible t ≡ true)
    on_base fuel c none e t ih h = cc h
    on_base fuel c (some b) e t ih h = let r = ih b t h in (above c b e (r.0), r.1)

whichever : (o s r : Bool) → r ≡ true → (if o then if s then true else r else r) ≡ true
whichever false s r h = h
whichever true false r h = h
whichever true true r h = refl

IsA-compatible :
    (t c : Class)
    → overrides_is_compatible t ≡ true
    → IsA t c
    → (fuel : ℕ) → ends fuel c ≡ true
    → is_compatible fuel c t ≡ true
unfolding is_compatible ends
IsA-compatible t c o i zero e = cc e
IsA-compatible t c o (itself d same) (suc fuel) e =
    rw (ap overrides_is_compatible same ∙ o, same_type_refl c t same) refl
IsA-compatible t c o (above d b up i) (suc fuel) e =
    whichever (overrides_is_compatible c) (same_type c t)
      (onward false (λ d. is_compatible fuel d t) (base c))
      (rw up (IsA-compatible t b o i fuel (rw up at e)))

-- cast<T>() succeeds just when the object is a T and T is not a class of Value, Array2D or Array3D.
pub is_compatible_lem :
    (c t : Class) → (is_compatible 5 c t ≡ true) ↔ (IsA t c × (overrides_is_compatible t ≡ true))
is_compatible_lem c t = (compatible-IsA 5 c t, λ h. IsA-compatible t c (h.1) (h.0) 5 (ends_all c))

only_commands : (c : Class) → (is_commands c ≡ false) ⊎ (c ≡ node commands)
only_commands (node commands) = inr refl
only_commands _ = inl refl

module _ (calls : Class → Option Class)
    (agrees : (c : Class) → is_commands c ≡ false → calls c ≡ base c)
    (commands_call : calls (node commands) ≡ some (node NodeClass.node)) where
  cast-IsA : (c d : Class) → calls c ≡ some d → IsA d c
  unfolding base
  cast-IsA c d e = elim (only_commands c) [
    | inl h ↦ above c d (sym (agrees c h) ∙ e) (itself d refl)
    | inr h ↦ rw h (
        above (node commands) (vulkan command) refl (
          above (vulkan command) (node NodeClass.node) refl
            (itself (node NodeClass.node) (cc (commands_call, e, h)))))
  ]

-- The class that an apply() casts its argument to is one that the argument is an object of.
pub next-IsA : (c d : Class) → (next c ≡ some d → IsA d c) × (const_next c ≡ some d → IsA d c)
unfolding next const_next
next-IsA c d = (cast-IsA next next-base refl c d, cast-IsA const_next const_next-base refl c d)
