-- ===== src/Session/Single.antt =====
-- At most one area holds a token, over every history of calls.
use kiro_reverse_api.Prelude.{ℕ, ◌≡◌, ◌⊎◌, inl, inr, Bool, true, false, not, none, if_keeps, arith}
use kiro_reverse_api.Storage.{StorageArea, local, session, Browser, read_storage}
use kiro_reverse_api.Session.{
  Session, Store, Reason, token_key, area_for, remove_token, get_session, get_token,
  is_authenticated, set_session, store_session, clear_session, run_microtask, subscribe_session,
  unsubscribe_session,
}
use kiro_reverse_api.Session.Reads.{swept, read_storage-remove_token}
use kiro_reverse_api.Session.Changes.{get_session-browser, store_session-other}

abbrev pub HasOne : Browser → Type 0
HasOne b = (read_storage b token_key session ≡ none) ⊎ (read_storage b token_key local ≡ none)

-- The calls that the rest of the panel makes on the module, in any order.
pub data Step : Store → Store → Type 0 where
  reads : (now : ℕ) (st : Store) → Step st (get_session now st).0
  reads_token : (now : ℕ) (st : Store) → Step st (get_token now st).0
  asks : (now : ℕ) (st : Store) → Step st (is_authenticated now st).0
  sets : (now : ℕ) (s : Session) (r : Reason) (st : Store) → Step st (set_session now s r st)
  clears : (r : Reason) (st : Store) → Step st (clear_session r st)
  reports : (st : Store) → Step st (run_microtask st)
  subscribes : (l : ℕ) (st : Store) → Step st (subscribe_session l st)
  unsubscribes : (l : ℕ) (st : Store) → Step st (unsubscribe_session l st)

pub data Reach (st : Store) : Store → Type 0 where
  here : Reach st st
  next : {t u : Store} → Reach st t → Step t u → Reach st u

-- A read removes tokens and adds none.
swept-none :
    (now : ℕ) (b : Browser) (a : StorageArea)
    → read_storage b token_key a ≡ none
    → read_storage (swept now b) token_key a ≡ none
unfolding swept
swept-none now b a h = ground (
  arith,
  read_storage-remove_token b session token_key a,
  read_storage-remove_token b local token_key a,
  read_storage-remove_token (remove_token b session) local token_key a,
)

swept-HasOne : (now : ℕ) (b : Browser) → HasOne b → HasOne (swept now b)
swept-HasOne now b (inl h) = inl (swept-none now b session h)
swept-HasOne now b (inr h) = inr (swept-none now b local h)

get_session-HasOne :
    (now : ℕ) (st : Store) → HasOne st.browser → HasOne (get_session now st).0.browser
get_session-HasOne now st h = rw (get_session-browser now st) (swept-HasOne now st.browser h)

at_other : (m : Bool) (b : Browser) → read_storage b token_key (area_for (not m)) ≡ none → HasOne b
at_other true b h = inl h
at_other false b h = inr h

remove_token-HasOne : (b : Browser) (a : StorageArea) → HasOne (remove_token b a)
remove_token-HasOne b local = inr (rw (read_storage-remove_token b local token_key local))
remove_token-HasOne b session = inl (rw (read_storage-remove_token b session token_key session))

set_session-HasOne :
    (now : ℕ) (s : Session) (r : Reason) (st : Store) → HasOne (set_session now s r st).browser
unfolding set_session
set_session-HasOne now s r st =
    get_session-HasOne now (record st { browser = store_session s st.browser })
      (at_other s.remember _ (store_session-other s.remember s.token s.expires_at st.browser))

run_microtask-browser : (st : Store) → (run_microtask st).browser ≡ st.browser
unfolding run_microtask
run_microtask-browser st = ground arith

Step-HasOne : {st st' : Store} → Step st st' → HasOne st.browser → HasOne st'.browser
unfolding get_token is_authenticated clear_session subscribe_session unsubscribe_session
Step-HasOne (reads now st) h = get_session-HasOne now st h
Step-HasOne (reads_token now st) h = get_session-HasOne now st h
Step-HasOne (asks now st) h = get_session-HasOne now st h
Step-HasOne (sets now s r st) h = set_session-HasOne now s r st
Step-HasOne (clears r st) h = remove_token-HasOne (remove_token st.browser session) local
Step-HasOne (reports st) h = rw (run_microtask-browser st) h
Step-HasOne (subscribes l st) h = if_keeps (λ (t : Store). HasOne t.browser) _ h h
Step-HasOne (unsubscribes l st) h = h

-- Whatever the rest of the panel calls, in any order and at any times, and whatever writes storage
-- refuses: if at most one area held a token at first, at most one does afterwards.
pub Reach-HasOne : {st st' : Store} → HasOne st.browser → Reach st st' → HasOne st'.browser
Reach-HasOne h here = h
Reach-HasOne h (next r s) = Step-HasOne s (Reach-HasOne h r)
