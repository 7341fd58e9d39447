-- ===== src/Settings/Mappings/Moving.antt =====
-- Dragging a row.
use mathlib.Core.List.{Perm}
use mathlib.Core.List.Perm
use kiro_reverse_api.Prelude.{
  ℕ, zero, suc, ◌≤◌, ◌<◌, ◌≡◌, refl, sym, ap, true, false, ◌||◌, List, [], ◌∷◌, some, leb, ◌==◌,
  length, get_elem?, arith, Bool-cases, inl, inr, ==_iff,
}
use kiro_reverse_api.Prelude.Int.{ℤ, pos, negsuc}
use kiro_reverse_api.Settings.Mappings.{remove_at, insert_at, place, move_inside, move_row}

leb-false : (n i : ℕ) → i < n → leb n i ≡ false
leb-false n i h = ground arith

module _ {ℓ} {T : Type ℓ} where
  get_elem?-some : (xs : List T) (i : ℕ) → i < length xs → (x : T) × (get_elem? xs i ≡ some x)
  get_elem?-some [] i h = elim h [ ]
  get_elem?-some (x ∷ xs) zero h = (x, refl)
  get_elem?-some (x ∷ xs) (suc i) h = get_elem?-some xs i (omega arith)

  remove_at-perm :
      (xs : List T) (i : ℕ) (x : T) → get_elem? xs i ≡ some x → Perm xs (x ∷ remove_at i xs)
  unfolding remove_at
  remove_at-perm [] i x e = cc
  remove_at-perm (y ∷ xs) zero x e = Perm.cons' (ground arith) Perm.rfl
  remove_at-perm (y ∷ xs) (suc i) x e =
      Perm.trans (Perm.cons y (remove_at-perm xs i x e)) (Perm.swap x y _)

  insert_at-perm : (i : ℕ) (x : T) (xs : List T) → Perm (insert_at i x xs) (x ∷ xs)
  unfolding insert_at
  insert_at-perm zero x xs = Perm.rfl
  insert_at-perm (suc i) x [] = Perm.rfl
  insert_at-perm (suc i) x (y ∷ xs) =
      Perm.trans (Perm.cons y (insert_at-perm i x xs)) (Perm.swap x y xs)

  length-remove_at :
      (xs : List T) (i : ℕ) → i < length xs → suc (length (remove_at i xs)) ≡ length xs
  unfolding remove_at
  length-remove_at [] i h = elim h [ ]
  length-remove_at (x ∷ xs) zero h = refl
  length-remove_at (x ∷ xs) (suc i) h = ap suc (length-remove_at xs i (omega arith))

  length-insert_at : (i : ℕ) (x : T) (xs : List T) → length (insert_at i x xs) ≡ suc (length xs)
  unfolding insert_at
  length-insert_at zero x xs = refl
  length-insert_at (suc i) x [] = refl
  length-insert_at (suc i) x (y ∷ xs) = ap suc (length-insert_at i x xs)

  get_elem?-insert_at :
      (i : ℕ) (x : T) (xs : List T) → i ≤ length xs → get_elem? (insert_at i x xs) i ≡ some x
  unfolding insert_at
  get_elem?-insert_at zero x xs h = refl
  get_elem?-insert_at (suc i) x [] h = elim h [ ]
  get_elem?-insert_at (suc i) x (y ∷ xs) h = get_elem?-insert_at i x xs (omega arith)

  remove_at-insert_at :
      (i : ℕ) (x : T) (xs : List T) → i ≤ length xs → remove_at i (insert_at i x xs) ≡ xs
  unfolding insert_at remove_at
  remove_at-insert_at zero x xs h = refl
  remove_at-insert_at (suc i) x [] h = elim h [ ]
  remove_at-insert_at (suc i) x (y ∷ xs) h = ap (◌∷◌ y) (remove_at-insert_at i x xs (omega arith))

  insert_at-remove_at :
      (i : ℕ) (x : T) (xs : List T) → get_elem? xs i ≡ some x → insert_at i x (remove_at i xs) ≡ xs
  unfolding insert_at remove_at
  insert_at-remove_at i x [] e = absurd (cc)
  insert_at-remove_at zero x (y ∷ xs) e = ground arith
  insert_at-remove_at (suc i) x (y ∷ xs) e = ap (◌∷◌ y) (insert_at-remove_at i x xs e)

  -- Inside the list, a move takes the row out and puts it in again.
  move_row_inside :
      (rows : List T) (from to : ℕ) (x : T)
      → from < length rows
      → to < length rows
      → get_elem? rows from ≡ some x
      → move_row rows (pos from) (pos to) ≡ insert_at to x (remove_at from rows)
  unfolding move_row
  move_row_inside rows from to x h k e = elim (Bool-cases (from == to)) [
    | inl same ↦
        let e' : from ≡ to = (==_iff from to).0 same in
        rw (same, move_inside) (sym (rw (← e') (insert_at-remove_at from x rows e)))
    | inr apart ↦
        rw (
          apart,
          leb-false (length rows) from h,
          leb-false (length rows) to k,
          move_inside,
          e,
          place,
        )
  ]

  -- Out of bounds nothing moves.
  move_row_outside :
      (rows : List T) (from to : ℕ)
      → (leb (length rows) from || leb (length rows) to) ≡ true
      → move_row rows (pos from) (pos to) ≡ rows
  unfolding move_row move_inside
  move_row_outside rows from to h = ground arith

  -- Whatever the two positions, a move keeps the rows: it loses none and doubles none.
  pub move_row-perm : (rows : List T) (from to : ℤ) → Perm (move_row rows from to) rows
  move_row-perm rows (negsuc from) to = unfold move_row in Perm.rfl
  move_row-perm rows (pos from) (negsuc to) = unfold move_row in Perm.rfl
  move_row-perm rows (pos from) (pos to) =
      elim (Bool-cases (leb (length rows) from || leb (length rows) to)) [
        | inl outside ↦ rw (move_row_outside rows from to outside) Perm.rfl
        | inr inside ↦
            let h : from < length rows = ground arith in
            let k : to < length rows = ground arith in
            let (x, e) = get_elem?-some rows from h in
            rw (move_row_inside rows from to x h k e) (
              Perm.trans (insert_at-perm to x (remove_at from rows))
                (Perm.symm (remove_at-perm rows from x e)))
      ]

  -- Between two positions of the list, the row at `from` arrives at `to`, and the move from `to`
  -- back to `from` restores the list.
  pub move_row_back :
      (rows : List T) (from to : ℕ)
      → from < length rows
      → to < length rows
      → let moved = move_row rows (pos from) (pos to) in
        (get_elem? moved to ≡ get_elem? rows from) × (move_row moved (pos to) (pos from) ≡ rows)
  move_row_back rows from to h k =
      let (x, e) = get_elem?-some rows from h in
      let rest = remove_at from rows in
      let size = length-remove_at rows from h in
      let fits : to ≤ length rest = omega arith in
      let landed = get_elem?-insert_at to x rest fits in
      let len = length-insert_at to x rest in
      rw (move_row_inside rows from to x h k e) (
        rw e landed,
        rw
            (
              move_row_inside (insert_at to x rest) to from x (omega arith) (omega arith) landed,
              remove_at-insert_at to x rest fits,
            )
            (insert_at-remove_at from x rows e),
      )
