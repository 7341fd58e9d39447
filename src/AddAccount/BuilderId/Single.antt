-- ===== src/AddAccount/BuilderId/Single.antt =====
-- The polling of ui/src/features/add-account/flows/builder-id-flow.tsx never doubles.
use mathlib.Core.Path.{subst}
use kiro_reverse_api.Prelude.{
  ℕ, suc, ◌+◌, ◌≤◌, ◌≡◌, refl, sym, ◌∙◌, true, false, List, [], ◌∷◌, ◌++◌, Option, none, some,
  arith, inl, inr, if◌then◌else◌, ltb, All, length, Bool-cases, if_keeps,
}
use kiro_reverse_api.AddAccount.{is_current}
use kiro_reverse_api.AddAccount.BuilderId.{
  Poll, Flow, new_flow, or_interval, PollReply, completed, pending, lost, rejected, leave, give_up,
  polled, end_poll, max_network_retries, Step, starts_login, replies_start, fires, replies_poll,
  leaves, Reach, here, next,
}
use kiro_reverse_api.AddAccount.BuilderId.Chain.{
  All-split, IsPast, IsSingle, IsStopped, count_live, count_live-append, held_timers, is_live,
  stopped-IsSingle,
}
use kiro_reverse_api.AddAccount.BuilderId.Moves.{
  schedule-IsSingle, give_up-IsStopped, leave-IsStopped, begin_start-IsSingle, end_start-IsSingle,
  fire-IsSingle,
}

-- A reply that is taken finds neither a timer nor another reply to be taken.
polled-IsSingle : (p : Poll) (r : PollReply) (f : Flow) → IsStopped f → IsSingle (polled p r f)
unfolding leave
polled-IsSingle p completed f h = stopped-IsSingle _ (
    leave-IsStopped false (give_up f)
      (stopped-IsSingle _ (give_up-IsStopped f (stopped-IsSingle f h))))
polled-IsSingle p (pending i) f h = schedule-IsSingle p.generation (or_interval i p.interval) 0 f h
polled-IsSingle p lost f h =
    if_keeps IsSingle (ltb p.failures max_network_retries)
      (schedule-IsSingle p.generation p.interval (suc p.failures) f h)
      (stopped-IsSingle _ (give_up-IsStopped f (stopped-IsSingle f h)))
polled-IsSingle p rejected f h = stopped-IsSingle _ (give_up-IsStopped f (stopped-IsSingle f h))

length_zero : (ts : List ℕ) → length ts ≡ 0 → ts ≡ []
length_zero [] e = refl
length_zero (t ∷ ts) e = absurd (omega (arith, e))

held_none : (t : Option ℕ) → [] ≡ held_timers t → t ≡ none
held_none none e = refl
held_none (some t) e = absurd (cc)

module _ (before after : List Poll) (p : Poll) (r : PollReply) (f : Flow)
    (e : f.polls ≡ before ++ p ∷ after) (h : IsSingle f) where
  answered : Flow
  answered = record f { polls = before ++ after }

  IsPast-all : All (IsPast f.sessions.generation) (before ++ after)
  IsPast-all =
      (All-split (IsPast f.sessions.generation) p before after
        (subst (λ ps. All (IsPast f.sessions.generation) ps) e h.past)).1

  one_all :
      (if is_live f.sessions.generation f.sessions.builder_id_session p then 1 else 0)
        + count_live f.sessions.generation f.sessions.builder_id_session (before ++ after)
        + length f.sessions.timers
      ≤ 1
  one_all = omega (
    arith,
    count_live-append f.sessions.generation f.sessions.builder_id_session p before after,
    subst
        (λ ps.
          count_live f.sessions.generation f.sessions.builder_id_session ps
            + length f.sessions.timers
          ≤ 1)
        e h.one,
  )

  answered-IsSingle : IsSingle answered
  unfolding answered
  answered-IsSingle = record { held = h.held; one = omega (arith, one_all); past = IsPast-all }

  answered-IsStopped :
      is_live f.sessions.generation f.sessions.builder_id_session p ≡ true → IsStopped answered
  unfolding answered
  answered-IsStopped l =
      let bound : 1
            + count_live f.sessions.generation f.sessions.builder_id_session (before ++ after)
            + length f.sessions.timers
          ≤ 1 =
        rw l at one_all in
      let none_set : f.sessions.timers ≡ [] =
        length_zero f.sessions.timers (omega (arith, bound)) in
      record {
        no_timer = none_set;
        none_held = held_none f.sessions.builder_id_timer (sym none_set ∙ h.held);
        none_live = omega (arith, bound);
        past = IsPast-all;
      }

  end_poll-IsSingle : IsSingle (end_poll p r answered)
  unfolding end_poll is_current answered
  end_poll-IsSingle =
      elim (Bool-cases (is_live f.sessions.generation f.sessions.builder_id_session p)) [
        | inl l ↦
            subst (λ b. IsSingle (if b then polled p r answered else answered)) (sym l)
              (polled-IsSingle p r answered (answered-IsStopped l))
        | inr l ↦
            subst (λ b. IsSingle (if b then polled p r answered else answered)) (sym l)
              answered-IsSingle
      ]

Step-IsSingle : {f g : Flow} → Step f g → IsSingle f → IsSingle g
unfolding answered
Step-IsSingle (starts_login f) h = begin_start-IsSingle f h
Step-IsSingle (replies_start before after g r f e fresh) h =
    end_start-IsSingle before after g r f fresh h
Step-IsSingle (fires before after a f e set) h = fire-IsSingle a f set h
Step-IsSingle (replies_poll before after p r f e) h = end_poll-IsSingle before after p r f e h
Step-IsSingle (leaves f) h = stopped-IsSingle _ (leave-IsStopped true f h)

pub Reach-IsSingle : {f : Flow} → Reach new_flow f → IsSingle f
Reach-IsSingle here = record { held = refl; one = omega arith; past = tt }
Reach-IsSingle (next r s) = Step-IsSingle s (Reach-IsSingle r)

-- In every order of starts, timers, replies and ways out, there is never more than one of the timer
-- and the polls whose reply would be taken, and the timer that is set is the one that the sessions
-- hold; after a way out no timer is set and no reply still to come is taken. A new session of the
-- server is none that a poll under way asks for.
pub Reach-leave : {f : Flow} → Reach new_flow f → IsSingle f × IsStopped (leave true f)
Reach-leave {f = f} r = (Reach-IsSingle r, leave-IsStopped true f (Reach-IsSingle r))
