-- ===== src/Settings/Draft/Equal/Tests.antt =====
-- A draft with its keys in another order and an undefined one.
use kiro_reverse_api.Prelude.{◌≡◌, refl, true, false}
use kiro_reverse_api.Text.{codes}
use kiro_reverse_api.Settings.Draft.Equal.{
  Value, undefined, flag, num, arr, obj, nil, cons, end, entry, is_equal,
}
use kiro_reverse_api.Settings.Draft.Equal.Laws.{IsPlain}
use kiro_reverse_api.Settings.Draft.Equal.Equivalence.{is_equal_equivalence}

abbrev server : Value
server = obj (entry (codes "port") (num (codes "80")) (entry (codes "on") (flag true) end))

abbrev draft : Value
draft = obj (
    entry (codes "on") (flag true)
      (entry (codes "note") undefined (entry (codes "port") (num (codes "80")) end)))

equal_drafts :
    (is_equal draft server ≡ true)
    × (is_equal (arr (cons draft nil)) (arr (cons server (cons server nil))) ≡ false)
    × (is_equal (num (codes "0")) (num (codes "-0")) ≡ false)
unfolding is_equal
equal_drafts = (refl, refl, refl)

server-IsPlain : IsPlain server
unfolding IsPlain
server-IsPlain = (refl, tt, (refl, tt, tt))

draft-IsPlain : IsPlain draft
unfolding IsPlain
draft-IsPlain = (refl, tt, (refl, tt, (refl, tt, tt)))

is_equal_equivalence_example :
    (is_equal draft draft ≡ true)
    × (is_equal draft server ≡ true → is_equal server draft ≡ true)
    × (is_equal draft server ≡ true → is_equal server draft ≡ true → is_equal draft draft ≡ true)
is_equal_equivalence_example = is_equal_equivalence draft server draft draft-IsPlain server-IsPlain
