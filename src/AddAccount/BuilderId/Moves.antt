-- ===== src/AddAccount/BuilderId/Moves.antt =====
-- What starting, firing and leaving keep of the polling of
-- ui/src/features/add-account/flows/builder-id-flow.tsx.
use kiro_reverse_api.Prelude.{
  ℕ, suc, ◌+◌, ◌≤◌, ◌≡◌, refl, Bool, true, false, ◌||◌, not, List, [], ◌∷◌, ◌++◌, arith,
  if◌then◌else◌, ◌==◌, All, All-weaken, if_keeps,
}
use kiro_reverse_api.Text.{Text, text_eq, is_full}
use kiro_reverse_api.AddAccount.{is_current, stop_builder_id, reset, cancel_microsoft}
use kiro_reverse_api.AddAccount.BuilderId.{
  Armed, Poll, Flow, schedule, begin_start, or_interval, default_interval, StartReply, opened,
  refused, show_code, started, end_start, poll_of, without_timer, fired, fire, leave, give_up,
  IsFresh, is_set,
}
use kiro_reverse_api.AddAccount.BuilderId.Chain.{
  IsPast, IsSingle, IsStopped, cleared, count_live, count_live_empty, count_live_fresh,
  count_live_later, is_live, taken,
}

pub schedule-IsSingle : (g i n : ℕ) (f : Flow) → IsStopped f → IsSingle (schedule g i n f)
unfolding schedule
schedule-IsSingle g i n f h = record {
  held = rw (h.no_timer) refl;
  one = rw (h.no_timer, h.none_live) (omega arith);
  past = h.past;
}

-- Stopping leaves neither a timer nor a reply that would be taken.
pub give_up-IsStopped : (f : Flow) → IsSingle f → IsStopped (give_up f)
unfolding stop_builder_id
give_up-IsStopped f h = record {
  no_timer = cleared f.sessions.builder_id_timer f.sessions.timers h.held;
  none_held = refl;
  none_live = count_live_empty f.sessions.generation f.sessions.generation f.polls h.past;
  past = h.past;
}

IsPast-later : (g : ℕ) (ps : List Poll) → All (IsPast g) ps → All (IsPast (suc g)) ps
IsPast-later g ps h =
    All-weaken {P = IsPast g} {R = IsPast (suc g)} ps (λ p k. (omega (arith, k.0), k.1)) h

pub leave-IsStopped : (cancel : Bool) (f : Flow) → IsSingle f → IsStopped (leave cancel f)
unfolding leave reset stop_builder_id cancel_microsoft
leave-IsStopped true f h = record {
  no_timer = cleared f.sessions.builder_id_timer f.sessions.timers h.held;
  none_held = refl;
  none_live = count_live_later f.sessions.generation [] f.polls h.past;
  past = IsPast-later f.sessions.generation f.polls h.past;
}
leave-IsStopped false f h = record {
  no_timer = cleared f.sessions.builder_id_timer f.sessions.timers h.held;
  none_held = refl;
  none_live = count_live_later f.sessions.generation [] f.polls h.past;
  past = IsPast-later f.sessions.generation f.polls h.past;
}

pub begin_start-IsSingle : (f : Flow) → IsSingle f → IsSingle (begin_start f)
unfolding begin_start
begin_start-IsSingle f h =
    if_keeps IsSingle f.starting h (record { held = h.held; one = h.one; past = h.past })

show_code-IsSingle :
    (g : ℕ) (s : Text) (i : ℕ) (f : Flow)
    → All (λ (p : Poll). text_eq p.session s ≡ false) f.polls
    → IsSingle f
    → IsSingle (show_code g s i f)
unfolding stop_builder_id
show_code-IsSingle g s i f fresh h =
    schedule-IsSingle g (or_interval i default_interval) 0 _ (record {
      no_timer = cleared f.sessions.builder_id_timer f.sessions.timers h.held;
      none_held = refl;
      none_live = count_live_fresh f.sessions.generation s f.polls fresh;
      past = h.past;
    })

started-IsSingle :
    (g : ℕ) (r : StartReply) (f : Flow) → IsFresh r f.polls → IsSingle f → IsSingle (started g r f)
started-IsSingle g (opened s i) f fresh h =
    let k = show_code-IsSingle g s i f fresh h in
    record { held = k.held; one = k.one; past = k.past }
started-IsSingle g refused f fresh h = record { held = h.held; one = h.one; past = h.past }

pub end_start-IsSingle :
    (before after : List ℕ) (g : ℕ) (r : StartReply) (f : Flow)
    → IsFresh r f.polls
    → IsSingle f
    → IsSingle (end_start g r (record f { starts = before ++ after }))
unfolding end_start is_current
end_start-IsSingle before after g r f fresh h =
    let k : IsSingle (record f { starts = before ++ after }) = record {
      held = h.held;
      one = h.one;
      past = h.past;
    } in
    if_keeps IsSingle (g == f.sessions.generation) (started-IsSingle g r _ fresh k) k

one_more : (b : Bool) → (if b then 1 else 0) + 0 + 0 ≤ 1
one_more true = omega arith
one_more false = omega arith

pub fire-IsSingle :
    (a : Armed) (f : Flow)
    → is_set a.timer f.sessions.timers ≡ true
    → IsSingle f
    → IsSingle (fire a f)
unfolding fire is_current
fire-IsSingle a f set h =
    let (gone, single) = taken a.timer f.sessions.builder_id_timer f.sessions.timers h.held set in
    let none_live : count_live f.sessions.generation f.sessions.builder_id_session f.polls ≡ 0 =
      omega (arith, h.one, single) in
    fired_or_polls (is_full f.sessions.builder_id_session) (a.generation == f.sessions.generation)
      refl refl gone none_live
  where
    fired_or_polls :
        (b c : Bool)
        → is_full f.sessions.builder_id_session ≡ b
        → (a.generation == f.sessions.generation) ≡ c
        → without_timer a.timer f.sessions.timers ≡ []
        → count_live f.sessions.generation f.sessions.builder_id_session f.polls ≡ 0
        → IsSingle (
            if not b || not c
            then fired a f
            else record (fired a f) { polls = poll_of a f ∷ f.polls })
    fired_or_polls false c e g gone zero_live = record {
      held = gone;
      one = rw (gone, zero_live) (omega arith);
      past = h.past;
    }
    fired_or_polls true false e g gone zero_live = record {
      held = gone;
      one = rw (gone, zero_live) (omega arith);
      past = h.past;
    }
    fired_or_polls true true e g gone zero_live = record {
      held = gone;
      one =
          rw (gone, zero_live)
            (one_more (is_live f.sessions.generation f.sessions.builder_id_session (poll_of a f)));
      past = ((ground (arith, g), e), h.past);
    }
