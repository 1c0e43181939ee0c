-- ===== src/DatabasePager/Numbers.antt =====
-- The numbers of `Balanced` at the steps of the system. `v` is the value of the status of the
-- PagedLOD `k`, and the step is one of `plod`.
use vsg.Base.{ℕ, ◌+◌, ◌≡◌, ◌≢◌, true, if◌then◌else◌, ◌==◌, arith}
use vsg.DatabasePager.Owned.{Balanced}

abbrev pub one : ℕ → ℕ → ℕ
one plod k = if plod == k then 1 else 0

module _ (k plod : ℕ) {v a b c d e f g h i j : ℕ} where
  pub Balanced-ask_read :
      {v' a' : ℕ}
      → a' ≡ a + one plod k
      → v' ≡ (if plod == k then 1 else v)
      → ((plod == k) ≡ true → v ≡ 0)
      → Balanced v a b c d e f g h i j
      → Balanced v' a' b c d e f g h i j
  Balanced-ask_read h1 h2 h3 h4 = ground arith

  pub Balanced-ask_compile :
      {v' d' : ℕ}
      → d' ≡ d + one plod k
      → v' ≡ (if plod == k then 3 else v)
      → ((plod == k) ≡ true → v ≡ 0)
      → Balanced v a b c d e f g h i j
      → Balanced v' a b c d' e f g h i j
  Balanced-ask_compile h1 h2 h3 h4 = ground arith

  pub Balanced-take_read :
      {a' b' : ℕ}
      → a ≡ one plod k + a'
      → b' ≡ one plod k + b
      → Balanced v a b c d e f g h i j
      → Balanced v a' b' c d e f g h i j
  Balanced-take_read h1 h2 h3 = ground arith

  pub Balanced-begin_read :
      {v' b' c' : ℕ}
      → b ≡ one plod k + b'
      → c' ≡ one plod k + c
      → v' ≡ (if plod == k then 2 else v)
      → Balanced v a b c d e f g h i j
      → Balanced v' a b' c' d e f g h i j
  Balanced-begin_read h1 h2 h3 h4 = ground arith

  pub Balanced-drop_read :
      {v' b' : ℕ}
      → b ≡ one plod k + b'
      → v' ≡ (if plod == k then 0 else v)
      → Balanced v a b c d e f g h i j
      → Balanced v' a b' c d e f g h i j
  Balanced-drop_read h1 h2 h3 = ground arith

  pub Balanced-end_read :
      {v' c' d' : ℕ}
      → c ≡ one plod k + c'
      → d' ≡ d + one plod k
      → v' ≡ (if plod == k then 3 else v)
      → Balanced v a b c d e f g h i j
      → Balanced v' a b c' d' e f g h i j
  Balanced-end_read h1 h2 h3 h4 = ground arith

  pub Balanced-drop_reading :
      {v' c' : ℕ}
      → c ≡ one plod k + c'
      → v' ≡ (if plod == k then 0 else v)
      → Balanced v a b c d e f g h i j
      → Balanced v' a b c' d e f g h i j
  Balanced-drop_reading h1 h2 h3 = ground arith

  pub Balanced-delete :
      {v' e' : ℕ}
      → e ≡ one plod k + e'
      → v' ≡ (if plod == k then 0 else v)
      → ((plod == k) ≡ true → v ≡ 7)
      → Balanced v a b c d e f g h i j
      → Balanced v' a b c d e' f g h i j
  Balanced-delete h1 h2 h3 h4 = ground arith

  pub Balanced-keep :
      {e' f' : ℕ}
      → e ≡ one plod k + e'
      → f' ≡ one plod k + f
      → ((plod == k) ≡ true → v ≢ 7)
      → Balanced v a b c d e f g h i j
      → Balanced v a b c d e' f' g h i j
  Balanced-keep h1 h2 h3 h4 = ground arith

  pub Balanced-compile :
      {v' f' g' : ℕ}
      → f ≡ one plod k + f'
      → g' ≡ one plod k + g
      → v' ≡ (if plod == k then 4 else v)
      → Balanced v a b c d e f g h i j
      → Balanced v' a b c d e f' g' h i j
  Balanced-compile h1 h2 h3 h4 = ground arith

  pub Balanced-drop_compile :
      {v' f' : ℕ}
      → f ≡ one plod k + f'
      → v' ≡ (if plod == k then 0 else v)
      → Balanced v a b c d e f g h i j
      → Balanced v' a b c d e f' g h i j
  Balanced-drop_compile h1 h2 h3 = ground arith

  pub Balanced-finish :
      {v' g' h' : ℕ}
      → g ≡ one plod k + g'
      → h' ≡ h + one plod k
      → v' ≡ (if plod == k then 5 else v)
      → Balanced v a b c d e f g h i j
      → Balanced v' a b c d e f g' h' i j
  Balanced-finish h1 h2 h3 h4 = ground arith

  pub Balanced-merge :
      {v' j' : ℕ}
      → j ≡ one plod k + j'
      → v' ≡ (if plod == k then 0 else v)
      → Balanced v a b c d e f g h i j
      → Balanced v' a b c d e f g h i j'
  Balanced-merge h1 h2 h3 = ground arith

  pub Balanced-trim :
      {v' d' : ℕ}
      → d' ≡ d + one plod k
      → v' ≡ (if plod == k then 7 else v)
      → ((plod == k) ≡ true → v ≡ 0)
      → Balanced v a b c d e f g h i j
      → Balanced v' a b c d' e f g h i j
  Balanced-trim h1 h2 h3 h4 = ground arith

  -- A status that the invariant excludes.
  pub Balanced-lost :
      {f' : ℕ}
      → f ≡ one plod k + f'
      → ((plod == k) ≡ true → v ≢ 3)
      → Balanced v a b c d e f g h i j
      → Balanced v a b c d e f' g h i j
  Balanced-lost h1 h2 h3 = ground arith

  pub Balanced-unmerged :
      {j' : ℕ}
      → j ≡ one plod k + j'
      → ((plod == k) ≡ true → v ≢ 5)
      → Balanced v a b c d e f g h i j
      → Balanced v a b c d e f g h i j'
  Balanced-unmerged h1 h2 h3 = ground arith

  pub Balanced-add_merge :
      {h' i' : ℕ}
      → h ≡ one plod k + h'
      → i' ≡ i + one plod k
      → Balanced v a b c d e f g h i j
      → Balanced v a b c d e f g h' i' j
  Balanced-add_merge h1 h2 h3 = ground arith

module _ {v a b c d e f g h i j : ℕ} where
  pub Balanced-take_merge :
      {j' : ℕ} → j' ≡ j + i → Balanced v a b c d e f g h i j → Balanced v a b c d e f g h 0 j'
  Balanced-take_merge h1 h2 = ground arith

  pub Balanced-take_compile :
      {e' : ℕ} → e' ≡ e + d → Balanced v a b c d e f g h i j → Balanced v a b c 0 e' f g h i j
  Balanced-take_compile h1 h2 = ground arith

  pub Balanced-recount_compile :
      {f' : ℕ} → f' ≡ f → Balanced v a b c d e f g h i j → Balanced v a b c d e f' g h i j
  Balanced-recount_compile h1 h2 = ground arith

  pub Balanced-recount_compiled :
      {g' : ℕ} → g' ≡ g → Balanced v a b c d e f g h i j → Balanced v a b c d e f g' h i j
  Balanced-recount_compiled h1 h2 = ground arith

  pub Balanced-add_finished :
      {i' : ℕ} → i' ≡ i + h → Balanced v a b c d e f g h i j → Balanced v a b c d e f g 0 i' j
  Balanced-add_finished h1 h2 = ground arith
