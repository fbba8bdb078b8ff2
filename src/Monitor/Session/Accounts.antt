-- ===== src/Monitor/Session/Accounts.antt =====
-- The accounts of what Monitor of src/etw/EtwMonitor.cpp has begun and ended.
use dx12track.Prelude.{
  ℕ, ◌+◌, ◌≡◌, ◌∙◌, refl, ap, Bool, true, false, not, List, [], ◌∷◌, ◌++◌, Option, none, some,
  arith, ◌==◌, if◌then◌else◌, if_both,
}
use dx12track.Wide.{Wide}
use dx12track.Monitor.Session.{
  Act, Impl, EnableAnswer, Provider, act, enable_provider, close_session, end_session, end_consumer,
  end_trace, stop, error_timeout, stop_names,
}

abbrev pub tally : (Act → Bool) → List Act → ℕ
tally p [] = 0
tally p (a ∷ l) = (if p a then 1 else 0) + tally p l

abbrev pub bit : Bool → ℕ
bit b = if b then 1 else 0

abbrev pub starts_trace : Act → Bool
starts_trace Act.start_trace = true
starts_trace _ = false

abbrev pub stops_trace : Act → Bool
stops_trace (Act.stop_trace stopped) = stopped
stops_trace _ = false

-- The session is given up, and goes on in the system.
abbrev pub abandons_trace : Act → Bool
abandons_trace (Act.stop_trace stopped) = not stopped
abandons_trace _ = false

abbrev lets_go : Act → ℕ
lets_go a = bit (stops_trace a) + bit (abandons_trace a)

abbrev pub opens_trace : Act → Bool
opens_trace Act.open_trace = true
opens_trace _ = false

abbrev pub closes_trace : Act → Bool
closes_trace Act.close_trace = true
closes_trace _ = false

abbrev pub starts_consumer : Act → Bool
starts_consumer Act.start_consumer = true
starts_consumer _ = false

abbrev pub joins_consumer : Act → Bool
joins_consumer Act.join_consumer = true
joins_consumer _ = false

-- Is the monitor's session there, its trace, and the consumer's thread?
abbrev pub Parts : Type 0
Parts = Bool × Bool × Bool

-- The parts behind an act, where it is in order: the trace needs the session and the thread the trace; the
-- thread is joined only once the session is stopped or given up, since it ends only then, and the trace
-- is closed behind it.
abbrev move : Act → Parts → Option Parts
move Act.start_trace (false, false, false) = some (true, false, false)
move Act.open_trace (true, false, false) = some (true, true, false)
move Act.start_consumer (true, true, false) = some (true, true, true)
move (Act.stop_trace stopped) (true, t, c) = some (false, t, c)
move Act.join_consumer (false, t, true) = some (false, t, false)
move Act.close_trace (false, true, false) = some (false, false, false)
move (Act.enable pr) parts = some parts
move (Act.capture_state pr) parts = some parts
move (Act.stop_named name) parts = some parts
move _ parts = none

unfoldable pub replay : List Act → Parts → Option Parts
replay [] parts = some parts
replay (a ∷ l) parts = elim (move a parts) [ none ↦ none | some parts' ↦ replay l parts' ]

-- The session, the trace and the consumer's thread are there or not. The acts are in order and lead there,
-- and what is there is what has been begun and not ended, but for the sessions that ControlTrace refused
-- to stop.
pub record Holds (d : Impl) (session trace consumer : Bool) : Type 0 where
  pub session_is : d.session ≡ session
  pub trace_is : d.trace ≡ trace
  pub consumer_is : d.consumer ≡ consumer
  pub sessions :
      tally starts_trace d.acts
      ≡ tally stops_trace d.acts + tally abandons_trace d.acts + bit session
  pub traces : tally opens_trace d.acts ≡ tally closes_trace d.acts + bit trace
  pub consumers : tally starts_consumer d.acts ≡ tally joins_consumer d.acts + bit consumer
  pub order : replay d.acts (false, false, false) ≡ some (session, trace, consumer)

tally-snoc :
    (p : Act → Bool) (l : List Act) (a : Act) → tally p (l ++ a ∷ []) ≡ tally p l + bit (p a)
tally-snoc p [] a = ground arith
tally-snoc p (b ∷ l) a = omega (arith, tally-snoc p l a)

replay_on : Option Parts → List Act → Option Parts
replay_on o l = elim o [ none ↦ none | some parts ↦ replay l parts ]

replay_on-snoc :
    (o : Option Parts) (l : List Act) (a : Act) (parts' : Parts)
    → ((parts : Parts) → replay l parts ≡ some parts' → replay (l ++ a ∷ []) parts ≡ move a parts')
    → replay_on o l ≡ some parts'
    → replay_on o (l ++ a ∷ []) ≡ move a parts'
unfolding replay_on
replay_on-snoc none l a parts' ih h = cc
replay_on-snoc (some parts) l a parts' ih h = ih parts h

replay_last : (o : Option Parts) → replay_on o [] ≡ o
unfolding replay_on replay
replay_last none = refl
replay_last (some parts) = refl

replay-snoc :
    (l : List Act) (a : Act) (parts parts' : Parts)
    → replay l parts ≡ some parts'
    → replay (l ++ a ∷ []) parts ≡ move a parts'
unfolding replay replay_on
replay-snoc [] a parts parts' h =
    replay_last (move a parts) ∙ ap (λ o. elim o [ none ↦ none | some x ↦ move a x ]) h
replay-snoc (x ∷ l) a parts parts' h =
    replay_on-snoc (move x parts) l a parts' (λ k. replay-snoc l a k parts') h

-- An act changes the three accounts by what it begins and ends.
pub account :
    (a : Act) (d d' : Impl) (s t c : Bool) {s' t' c' : Bool}
    → Holds d s t c
    → d'.acts ≡ d.acts ++ a ∷ []
    → d'.session ≡ s'
    → d'.trace ≡ t'
    → d'.consumer ≡ c'
    → bit (starts_trace a) + bit s ≡ lets_go a + bit s'
    → bit (opens_trace a) + bit t ≡ bit (closes_trace a) + bit t'
    → bit (starts_consumer a) + bit c ≡ bit (joins_consumer a) + bit c'
    → move a (s, t, c) ≡ some (s', t', c')
    → Holds d' s' t' c'
account a d d' s t c h e x y z p q r moves = record {
  order = rw e (replay-snoc d.acts a (false, false, false) (s, t, c) h.order ∙ moves);
  session_is = x;
  trace_is = y;
  consumer_is = z;
  sessions = rw e (
      omega (
        arith,
        h.sessions,
        p,
        tally-snoc starts_trace d.acts a,
        tally-snoc stops_trace d.acts a,
        tally-snoc abandons_trace d.acts a,
      ));
  traces =
      rw e (
        omega (arith, h.traces, tally-snoc opens_trace d.acts a, tally-snoc closes_trace d.acts a));
  consumers = rw e (
      omega (
        arith,
        h.consumers,
        tally-snoc starts_consumer d.acts a,
        tally-snoc joins_consumer d.acts a,
      ));
}

-- An act that begins and ends nothing.
pub act_neutral :
    (a : Act) (d : Impl) (s t c : Bool)
    → bit (starts_trace a) ≡ lets_go a
    → opens_trace a ≡ closes_trace a
    → starts_consumer a ≡ joins_consumer a
    → move a (s, t, c) ≡ some (s, t, c)
    → Holds d s t c
    → Holds (act a d) s t c
act_neutral a d s t c p q r same h =
    account a d (act a d) s t c h refl h.session_is h.trace_is h.consumer_is (ap (λ b. b + bit s) p)
      (ap (λ b. bit b + bit t) q) (ap (λ b. bit b + bit c) r) same

pub enable_provider-Holds :
    (pr : Provider) (a : EnableAnswer) (d : Impl) (s t c : Bool)
    → Holds d s t c
    → Holds (enable_provider pr a d).0 s t c
unfolding enable_provider
enable_provider-Holds pr a d s t c h =
    let d₁ = act (Act.enable pr) d in
    let one = act_neutral (Act.enable pr) d s t c refl refl refl refl h in
    let tried =
      if_both (λ (x : Impl). Holds x s t c) (a.first == error_timeout)
        (act_neutral (Act.enable pr) d₁ s t c refl refl refl refl one) one in
    if_both (λ (x : Impl × ℕ). Holds x.0 s t c)
      ((if a.first == error_timeout then a.second else a.first) == 0)
      (act_neutral (Act.capture_state pr) _ s t c refl refl refl refl tried) tried

pub stop_names-Holds :
    (names : List Wide) (d : Impl) (s t c : Bool) → Holds d s t c → Holds (stop_names names d) s t c
unfolding stop_names
stop_names-Holds [] d s t c h = h
stop_names-Holds (n ∷ ns) d s t c h =
    stop_names-Holds ns (act (Act.stop_named n) d) s t c
      (act_neutral (Act.stop_named n) d s t c refl refl refl refl h)

end_session-Holds :
    (answer : Option (ℕ × ℕ)) (d : Impl) (s t c : Bool)
    → Holds d s t c
    → Holds (end_session answer d) false t c
unfolding end_session close_session
end_session-Holds answer d false t c h = simp h.session_is h
end_session-Holds none d true t c h = simp h.session_is (
    account (Act.stop_trace false) d _ true t c h refl refl h.trace_is h.consumer_is refl refl refl
      refl)
end_session-Holds (some x) d true t c h = simp h.session_is (
    account (Act.stop_trace true) d _ true t c h refl refl h.trace_is h.consumer_is refl refl refl
      refl)

end_trace-Holds :
    (d : Impl) (t : Bool) → Holds d false t false → Holds (end_trace d) false false false
unfolding end_trace
end_trace-Holds d false h = simp h.trace_is h
end_trace-Holds d true h = simp h.trace_is (
    account Act.close_trace d _ false true false h refl h.session_is refl h.consumer_is refl refl
      refl refl)

-- Where no consumer runs, Stop returns, and it does where the consumer's thread ends.
pub stop_settles :
    (answer : Option (ℕ × ℕ)) (ends : Bool) (d : Impl) (s t c : Bool)
    → Holds d s t c
    → (c ≡ true → ends ≡ true)
    → (d' : Impl) × (stop answer ends d ≡ some d') × Holds d' false false false
unfolding stop end_consumer
stop_settles answer ends d s t false h e =
    let held = end_session-Holds answer d s t false h in
    (
      end_trace (end_session answer d),
      rw (stop, end_consumer, held.consumer_is) refl,
      end_trace-Holds (end_session answer d) t held,
    )
stop_settles answer ends d s t true h e =
    let held = end_session-Holds answer d s t true h in
    let joined = record (act Act.join_consumer (end_session answer d)) { consumer = false } in
    (
      end_trace joined,
      rw (stop, end_consumer, held.consumer_is, e refl) refl,
      end_trace-Holds joined t (
          account Act.join_consumer (end_session answer d) joined false t true held refl
            held.session_is held.trace_is refl refl refl refl refl),
    )
