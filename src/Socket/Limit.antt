-- ===== src/Socket/Limit.antt =====
-- The rate limit on RREQ and RERR messages in `aodv_socket_send`.
use aodv_uu.Prelude.{
  ℕ, suc, ◌+◌, ◌-◌, ◌≤◌, ◌<◌, ◌≡◌, ◌≢◌, ◌↔◌, ℕ_discrete, List, [], ◌∷◌, none, some, refl, arith,
  true, false, ltb, ◌==◌, if◌then◌else◌, Bool-cases, inl, inr,
}
use aodv_uu.State.{RateLimit}
use aodv_uu.Machine.{update, Env, TimerLaws}
use aodv_uu.Socket.{rate_limit}

-- The window, and the times of all messages that it let through: `sent i` for `i` below `number`.
pub record History : Type 0 where
  pub window : RateLimit
  pub sent : ℕ → ℕ
  pub number : ℕ

-- One message at the time `now`, and a series of messages.
unfoldable pub send_at : Env → (limit now : ℕ) → History → History
send_at env limit now s = elim (rate_limit env limit now s.window) [
  | none ↦ s
  | some w ↦ record { window = w; sent = update s.sent s.number now; number = s.number + 1 }
]

unfoldable pub send_series : Env → (limit : ℕ) → List ℕ → History → History
send_series env limit [] s = s
send_series env limit (now ∷ times) s = send_series env limit times (send_at env limit now s)

-- The window holds the latest `limit - 1` times that were let through, the oldest first.
pub record IsWindow (limit : ℕ) (s : History) : Type 0 where
  pub few : s.window.count < limit
  pub most : s.window.count ≤ s.number
  pub all : suc s.window.count < limit → s.window.count ≡ s.number
  pub times :
      (i j : ℕ)
      → i < s.window.count
      → j + s.window.count ≡ s.number + i
      → s.window.times i ≡ s.sent j
  pub spaced : (i j : ℕ) → j ≡ i + (limit - 1) → j < s.number → s.sent i + 1000 ≤ s.sent j

-- The window after a message at the time `now`, when it is full and when it is not.
slid : ℕ → RateLimit → RateLimit
slid now w = record w {
  times = λ i.
      if i == w.count - 1 then now else if ltb i (w.count - 1) then w.times (i + 1) else w.times i;
}

grown : ℕ → RateLimit → RateLimit
grown now w = record w { times = update w.times w.count now; count = w.count + 1 }

module _ (env : Env) (laws : TimerLaws env) (limit : ℕ) where
  rate_limit_drop :
      (now : ℕ) (w : RateLimit)
      → w.count ≡ limit - 1
      → now < w.times 0 + 1000
      → rate_limit env limit now w ≡ none
  unfolding rate_limit
  rate_limit_drop now w f l = ground (arith, laws.diff_lt now (w.times 0) 1000)

  rate_limit_slide :
      (now : ℕ) (w : RateLimit)
      → w.count ≡ limit - 1
      → w.times 0 + 1000 ≤ now
      → rate_limit env limit now w ≡ some (slid now w)
  unfolding rate_limit slid
  rate_limit_slide now w f l =
      let t : (w.count == limit - 1) ≡ true = ground arith in
      let d : ltb now (w.times 0 + 1000) ≡ false = ground arith in
      ground (arith, laws.diff_lt now (w.times 0) 1000)

  rate_limit_grow :
      (now : ℕ) (w : RateLimit)
      → w.count ≢ limit - 1
      → rate_limit env limit now w ≡ some (grown now w)
  unfolding rate_limit grown
  rate_limit_grow now w f = ground arith

  module _ (two : 1 < limit) where
    slid-IsWindow :
        (now : ℕ) (s : History)
        → s.window.count ≡ limit - 1
        → s.window.times 0 + 1000 ≤ now
        → IsWindow limit s
        → IsWindow limit (record {
          window = slid now s.window;
          sent = update s.sent s.number now;
          number = s.number + 1;
        })
    unfolding slid
    slid-IsWindow now s f l v = record {
      few = v.few;
      most = ground (arith, v.most);
      all = λ l. ground (arith, f);
      times = λ i j k e. ground (arith, f, v.times (i + 1) j);
      spaced = λ i j e k. ground (arith, f, l, v.times 0 i, v.spaced i j, v.most);
    }

    grown-IsWindow :
        (now : ℕ) (s : History)
        → s.window.count ≢ limit - 1
        → IsWindow limit s
        → IsWindow limit (record {
          window = grown now s.window;
          sent = update s.sent s.number now;
          number = s.number + 1;
        })
    unfolding grown
    grown-IsWindow now s f v = record {
      few = ground (arith, v.few, f);
      most = ground (arith, v.most);
      all = λ l. ground (arith, v.all, v.few);
      times = λ i j k e. ground (arith, f, v.times i j, v.few, v.all);
      spaced = λ i j e k. ground (arith, f, v.few, v.all);
    }

    send_at-IsWindow :
        (now : ℕ) (s : History) → IsWindow limit s → IsWindow limit (send_at env limit now s)
    unfolding send_at
    send_at-IsWindow now s v = elim (ℕ_discrete s.window.count (limit - 1)) [
      | no f ↦ rw (send_at, rate_limit_grow now s.window f) (grown-IsWindow now s f v)
      | yes f ↦ elim (Bool-cases (ltb now (s.window.times 0 + 1000))) [
        | inl t ↦ rw (send_at, rate_limit_drop now s.window f (ground (arith, t))) v
        | inr t ↦
            rw (send_at, rate_limit_slide now s.window f (ground (arith, t)))
              (slid-IsWindow now s f (ground (arith, t)) v)
      ]
    ]

    send_series-IsWindow :
        (times : List ℕ) (s : History)
        → IsWindow limit s
        → IsWindow limit (send_series env limit times s)
    unfolding send_series
    send_series-IsWindow [] s v = v
    send_series-IsWindow (now ∷ times) s v =
        send_series-IsWindow times (send_at env limit now s) (send_at-IsWindow now s v)

    window_drop :
        (now : ℕ) (s : History)
        → IsWindow limit s
        → (rate_limit env limit now s.window ≡ none)
          ↔ ((limit - 1 ≤ s.number) × (now < s.sent (s.number - (limit - 1)) + 1000))
    window_drop now s v =
        let oldest = v.times 0 (s.number - (limit - 1)) in
        elim (ℕ_discrete s.window.count (limit - 1)) [
          | no f ↦ (
            λ e. ground (arith, rate_limit_grow now s.window f, e),
            λ b. absurd (ground (arith, f, v.few, v.all, b.0)),
          )
          | yes f ↦ (
            λ e. elim (Bool-cases (ltb now (s.window.times 0 + 1000))) [
              | inl t ↦ ground (arith, t, f, oldest, v.most)
              | inr t ↦ ground (arith, rate_limit_slide now s.window f (ground (arith, t)), e)
            ],
            λ b. rate_limit_drop now s.window f (ground (arith, b.1, f, oldest, v.most, two)),
          )
        ]

-- Before the first message.
abbrev pub no_history : (ℕ → ℕ) → History
no_history times = record {
  window = record { times = times; count = 0 };
  sent = λ i. 0;
  number = 0;
}

no_history-IsWindow : (limit : ℕ) (memory : ℕ → ℕ) → 1 < limit → IsWindow limit (no_history memory)
no_history-IsWindow limit memory two = record {
  few = omega arith;
  most = omega arith;
  all = λ l. refl;
  times = λ i j k e. absurd (omega arith);
  spaced = λ i j e k. absurd (omega arith);
}

-- The clock behaves as documented. Whatever messages arrive, and at whatever times, a limit above 1
-- that starts with an empty window never lets `limit` of them through within a second: of any two
-- that are `limit - 1` places apart among those that pass, the later one comes at least 1000 ms
-- after the earlier one.
pub rate_limit_spaced :
    (env : Env) (limit : ℕ) (memory : ℕ → ℕ) (times : List ℕ) (i : ℕ)
    → TimerLaws env
    → 1 < limit
    → i + (limit - 1) < (send_series env limit times (no_history memory)).number
    → (send_series env limit times (no_history memory)).sent i + 1000
      ≤ (send_series env limit times (no_history memory)).sent (i + (limit - 1))
rate_limit_spaced env limit memory times i laws two l =
    (send_series-IsWindow env laws limit two times (no_history memory)
        (no_history-IsWindow limit memory two)).spaced
      i (i + (limit - 1)) refl l

-- A message is dropped only where it must be. The clock behaves as documented, the limit is above
-- 1, and a series of messages has arrived since the window was empty: then the message at the time
-- `now` is dropped exactly if `limit - 1` messages have passed, and the one `limit - 1` places
-- before it came less than 1000 ms ago.
pub rate_limit_drop_iff :
    (env : Env) (limit : ℕ) (memory : ℕ → ℕ) (times : List ℕ) (now : ℕ)
    → TimerLaws env
    → 1 < limit
    → let s = send_series env limit times (no_history memory) in
      (rate_limit env limit now s.window ≡ none)
      ↔ ((limit - 1 ≤ s.number) × (now < s.sent (s.number - (limit - 1)) + 1000))
rate_limit_drop_iff env limit memory times now laws two =
    window_drop env laws limit two now (send_series env limit times (no_history memory)) (
      send_series-IsWindow env laws limit two times (no_history memory)
        (no_history-IsWindow limit memory two))
