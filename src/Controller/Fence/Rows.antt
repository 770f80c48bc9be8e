-- ===== src/Controller/Fence/Rows.antt =====
-- control/store/sqlite.go: the run that has the live container, among the rows of the store.
use weibo.Base.{
  ◌≡◌, ◌≢◌, ◌≤◌, ◌⊎◌, inl, inr, true, none, some, List, [], ◌∷◌, arith, sym, if_cases, bytes_eq,
  Bool-cases, ◌∙◌, ap, subst, refl,
}
use weibo.State.{Bytes}
use weibo.Positions.{bytes_ltb}
use weibo.Controller.{Run}
use weibo.Controller.Store.{
  is_active, count_active, replace, overwrite, has_run, newest_first, insert_newest, first_run,
  find_run, delete_runs,
}
use weibo.Controller.Launch.{first_active}
use weibo.Controller.Fence.{Watching, Watches, Stored}

pub Watches-count : (id : Bytes) (rs : List Run) → Watches id rs → 1 ≤ count_active rs
Watches-count id [] w = absurd w
Watches-count id (r ∷ rs) (inl w) = rw (w.0.0) (omega arith)
Watches-count id (r ∷ rs) (inr w) = omega (arith, Watches-count id rs w)

pub Stored-count :
    (r : Run) (rs : List Run) → is_active r ≡ true → Stored r rs → 1 ≤ count_active rs
Stored-count r [] a m = absurd m
Stored-count r (x ∷ xs) a (inl e) = rw (sym (ap is_active e) ∙ a) (omega arith)
Stored-count r (x ∷ xs) a (inr m) = omega (arith, Stored-count r xs a m)

-- The active run of the job is the one that has the container.
pub Watches-active :
    (id : Bytes) (r : Run) (rs : List Run)
    → count_active rs ≤ 1
    → is_active r ≡ true
    → Stored r rs
    → Watches id rs
    → Watching r × (r.container_id ≡ id)
Watches-active id r [] one a m w = absurd m
Watches-active id r (x ∷ xs) one a (inl e) (inl w) =
    subst (λ y. Watching y × (y.container_id ≡ id)) (sym e) w
Watches-active id r (x ∷ xs) one a (inl e) (inr w) =
    absurd (omega (arith, Watches-count id xs w, Stored-count r (x ∷ []) a (inl e)))
Watches-active id r (x ∷ xs) one a (inr m) (inl w) =
    absurd (omega (arith, Stored-count r xs a m, Watches-count id (x ∷ []) (inl w)))
Watches-active id r (x ∷ xs) one a (inr m) (inr w) = Watches-active id r xs (omega arith) a m w

pub Watches-replace :
    (r : Run) (id : Bytes) (rs : List Run)
    → Watching r
    → r.container_id ≡ id
    → Watches id rs
    → Watches id (replace r rs)
Watches-replace r id [] w e m = m
Watches-replace r id (x ∷ xs) w e (inl m) =
    if_cases (λ y. (Watching y × (y.container_id ≡ id)) ⊎ Watches id (replace r xs))
      (bytes_eq x.id r.id) (overwrite r x) x (λ _. inl (w, e)) (λ _. inl m)
Watches-replace r id (x ∷ xs) w e (inr m) = inr (Watches-replace r id xs w e m)

pub Watches-replaced :
    (r : Run) (rs : List Run)
    → Watching r
    → has_run r.id rs ≡ true
    → Watches r.container_id (replace r rs)
Watches-replaced r [] w h = absurd (cc)
Watches-replaced r (x ∷ xs) w h = elim (Bool-cases (bytes_eq x.id r.id)) [
  | inl same ↦ rw same (inl (w, refl))
  | inr other ↦ inr (Watches-replaced r xs w (rw other at h))
]

passed :
    (id : Bytes) (r x : Run) (xs ys : List Run)
    → (Watches id (r ∷ xs) → Watches id ys)
    → Watches id (r ∷ x ∷ xs)
    → Watches id (x ∷ ys)
passed id r x xs ys f (inl v) = inr (f (inl v))
passed id r x xs ys f (inr (inl v)) = inl v
passed id r x xs ys f (inr (inr v)) = inr (f (inr v))

unpassed :
    (y r x : Run) (xs ys : List Run)
    → (Stored y ys → Stored y (r ∷ xs))
    → Stored y (x ∷ ys)
    → Stored y (r ∷ x ∷ xs)
unpassed y r x xs ys f (inl e) = inr (inl e)
unpassed y r x xs ys f (inr m) = elim (f m) [ inl e ↦ inl e | inr v ↦ inr (inr v) ]

under :
    (y r : Run) (rs zs : List Run)
    → (Stored y zs → Stored y rs)
    → Stored y (r ∷ zs)
    → Stored y (r ∷ rs)
under y r rs zs f (inl e) = inl e
under y r rs zs f (inr m) = inr (f m)

module _ (text : Run → Bytes) where
  Watches-insert_newest :
      (id : Bytes) (r : Run) (rs : List Run)
      → Watches id (r ∷ rs)
      → Watches id (insert_newest text r rs)
  Watches-insert_newest id r [] w = w
  Watches-insert_newest id r (x ∷ xs) w =
      if_cases (Watches id) (bytes_ltb (text r) (text x)) _ _
        (λ _. passed id r x xs (insert_newest text r xs) (Watches-insert_newest id r xs) w) (λ _. w)

  pub Watches-newest_first :
      (id : Bytes) (rs : List Run) → Watches id rs → Watches id (newest_first text rs)
  Watches-newest_first id [] w = w
  Watches-newest_first id (r ∷ rs) (inl w) =
      Watches-insert_newest id r (newest_first text rs) (inl w)
  Watches-newest_first id (r ∷ rs) (inr w) =
      Watches-insert_newest id r (newest_first text rs) (inr (Watches-newest_first id rs w))

  Stored-insert_newest :
      (y r : Run) (rs : List Run) → Stored y (insert_newest text r rs) → Stored y (r ∷ rs)
  Stored-insert_newest y r [] = λ m. m
  Stored-insert_newest y r (x ∷ xs) =
      if_cases (λ zs. Stored y zs → Stored y (r ∷ x ∷ xs)) (bytes_ltb (text r) (text x)) _ _
        (λ _ m. unpassed y r x xs (insert_newest text r xs) (Stored-insert_newest y r xs) m)
        (λ _ m. m)

  pub Stored-newest_first :
      (y : Run) (rs : List Run) → Stored y (newest_first text rs) → Stored y rs
  Stored-newest_first y [] m = m
  Stored-newest_first y (r ∷ rs) m =
      under y r rs (newest_first text rs) (Stored-newest_first y rs)
        (Stored-insert_newest y r (newest_first text rs) m)

pub Stored-first_run : (r : Run) (rs : List Run) → first_run rs ≡ some r → Stored r rs
Stored-first_run r [] e = cc
Stored-first_run r (x ∷ xs) e = inl (cc)

pub Stored-find_run : (id : Bytes) (r : Run) (rs : List Run) → find_run id rs ≡ some r → Stored r rs
Stored-find_run id r [] = λ e. cc
Stored-find_run id r (x ∷ xs) =
    if_cases (λ o. o ≡ some r → Stored r (x ∷ xs)) (bytes_eq x.id id) _ _ (λ _ e. inl (cc))
      (λ _ e. inr (Stored-find_run id r xs e))

-- Where some run has a container, some run is active.
pub Watches-first_active : (id : Bytes) (rs : List Run) → Watches id rs → first_active rs ≢ none
Watches-first_active id [] w = absurd w
Watches-first_active id (r ∷ rs) (inl w) = rw (w.0.0) (λ e. cc)
Watches-first_active id (r ∷ rs) (inr w) =
    if_cases (λ o. o ≢ none) (is_active r) _ _ (λ _ e. cc) (λ _. Watches-first_active id rs w)

pub delete_runs-count :
    (victims rs : List Run) → count_active (delete_runs victims rs) ≤ count_active rs
delete_runs-count victims [] = omega arith
delete_runs-count victims (r ∷ rs) =
    if_cases (λ zs. count_active zs ≤ count_active (r ∷ rs)) (has_run r.id victims) _ _
      (λ _. omega (arith, delete_runs-count victims rs))
      (λ _. omega (arith, delete_runs-count victims rs))
