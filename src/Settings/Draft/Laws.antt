-- ===== src/Settings/Draft/Laws.antt =====
-- A refetch never overwrites local edits, and never hides that the server copy changed.
use kiro_reverse_api.Prelude.{
  ◌≡◌, refl, ◌⊎◌, inl, inr, ◌∙◌, Bool, true, false, not, ◌||◌, List, [], ◌∷◌, All, arith,
}
use kiro_reverse_api.Settings.Draft.{
  DraftState, reload, receive_server, is_dirty, shows_change, receive_all,
}

module _ {ℓ} {T : Type ℓ} (equal : T → T → Bool) (same : (t : T) → equal t t ≡ true) where
  -- One copy on a dirty draft.
  receive_server-dirty :
      (s : T) (st : DraftState T)
      → is_dirty equal st ≡ true
      → let st' = receive_server equal s st in
        (st'.draft ≡ st.draft)
        × (st'.base ≡ st.base)
        × (equal st'.seen s ≡ true)
        × (st'.server_changed ≡ (st.server_changed || not (equal st.seen s)))
  unfolding receive_server
  receive_server-dirty s st d = ground (arith, same s)

  receive_server_known :
      (s : T) (st : DraftState T) → equal st.seen s ≡ true → receive_server equal s st ≡ st
  unfolding receive_server
  receive_server_known s st e = rw e

  receive_all-dirty :
      (ss : List T) (st : DraftState T)
      → is_dirty equal st ≡ true
      → let st' = receive_all equal ss st in
        (st'.draft ≡ st.draft)
        × (st'.base ≡ st.base)
        × (st'.server_changed ≡ false
            → (st.server_changed ≡ false) × All (λ c. equal st.seen c ≡ true) ss)
  unfolding receive_all
  receive_all-dirty [] st d = (refl, refl, λ e. (e, tt))
  receive_all-dirty (s ∷ ss) st d =
      let (draft, base, seen, flag) = receive_server-dirty s st d in
      let later = receive_all-dirty ss (receive_server equal s st) (rw (draft, base) d) in
      (later.0 ∙ draft, later.1 ∙ base, λ e. quiet s ss st flag (later.2 e))
    where
      quiet :
          (s : T) (ss : List T) (st : DraftState T)
          → (receive_server equal s st).server_changed
            ≡ (st.server_changed || not (equal st.seen s))
          → ((receive_server equal s st).server_changed ≡ false)
            × All (λ c. equal (receive_server equal s st).seen c ≡ true) ss
          → (st.server_changed ≡ false) × All (λ c. equal st.seen c ≡ true) (s ∷ ss)
      quiet s ss st flag (e, rest) =
          let known : equal st.seen s ≡ true = ground arith in
          (ground arith, (known, rw (receive_server_known s st known) at rest))

  -- Local edits survive every refetch: while the draft is dirty, any server copies leave the draft
  -- and its base alone, so it stays dirty; `reload` then gives the last copy (up to `equal`); and
  -- if the hook shows no change, then every copy equals the one that was last seen before.
  pub edits_survive :
      (ss : List T) (s : T) (st : DraftState T)
      → is_dirty equal st ≡ true
      → let st' = receive_server equal s (receive_all equal ss st) in
        (st'.draft ≡ st.draft)
        × (is_dirty equal st' ≡ true)
        × (equal (reload st').draft s ≡ true)
        × (shows_change equal st' ≡ false
            → All (λ c. equal st.seen c ≡ true) ss
              × (equal (receive_all equal ss st).seen s ≡ true))
  unfolding reload
  edits_survive ss s st d =
      let (draft, base, quiet) = receive_all-dirty ss st d in
      let mid = receive_all equal ss st in
      let mid_dirty : is_dirty equal mid ≡ true = rw (draft, base) d in
      let (draft', base', seen', flag') = receive_server-dirty s mid mid_dirty in
      let still : is_dirty equal (receive_server equal s mid) ≡ true =
        rw (draft', base') mid_dirty in
      (
        draft' ∙ draft,
        still,
        seen',
        λ e.
            let no_flag : (receive_server equal s mid).server_changed ≡ false = rw still at e in
            ((quiet (ground arith)).1, ground arith),
      )

  receive_server-clean :
      (s : T) (st : DraftState T)
      → is_dirty equal st ≡ false
      → let st' = receive_server equal s st in
        (is_dirty equal st' ≡ false)
        × (equal st'.seen s ≡ true)
        × ((st' ≡ st) ⊎ (st'.draft ≡ st'.seen))
  unfolding receive_server
  receive_server-clean s st d = ground (arith, same s)

  followed :
      {st mid st' : DraftState T}
      → ((mid ≡ st) ⊎ (mid.draft ≡ mid.seen))
      → ((st' ≡ mid) ⊎ (st'.draft ≡ st'.seen))
      → (st' ≡ st) ⊎ (st'.draft ≡ st'.seen)
  followed (inl e) (inl f) = inl (f ∙ e)
  followed (inr e) (inl f) = inr (rw f e)
  followed h (inr f) = inr f

  -- A clean draft takes what it is given: after any server copies it is clean and has seen the last
  -- copy (up to `equal`); and either its state is as it was, or its value is the copy last seen.
  pub clean_follows :
      (ss : List T) (s : T) (st : DraftState T)
      → is_dirty equal st ≡ false
      → let st' = receive_server equal s (receive_all equal ss st) in
        (is_dirty equal st' ≡ false)
        × (equal st'.seen s ≡ true)
        × ((st' ≡ st) ⊎ (st'.draft ≡ st'.seen))
  unfolding receive_all
  clean_follows [] s st d = receive_server-clean s st d
  clean_follows (c ∷ ss) s st d =
      let (clean, seen, first) = receive_server-clean c st d in
      let (clean', seen', later) = clean_follows ss s (receive_server equal c st) clean in
      (clean', seen', followed first later)
