-- ===== src/Monitor/Notify/Debouncing.antt =====
-- `debouncing`: how far apart the notifications are that a target gets.
use docker_baseimage.Base.{
  ℕ, zero, suc, ◌-◌, ◌≤◌, ◌<◌, ◌≡◌, ◌≢◌, refl, sym, ap, ◌∙◌, subst, inl, inr, Bool, true, false,
  ◌&&◌, List, ◌∷◌, arith, ltb, ◌==◌, ==_iff, ==_refl, if◌then◌else◌, length, set, get_or,
  length-set, get_or-set_self, get_or-set_ne, Bool-cases,
}
use docker_baseimage.Base.Int.{ℤ, pos, negsuc}
use docker_baseimage.Text.{Bytes}
use docker_baseimage.Monitor.{Target, MonitorOs, MonitorEvent, notified, Sender}
use docker_baseimage.Monitor.Notify.{no_target, target_at, send_to, debounce}
use docker_baseimage.Monitor.Notify.Kept.{
  times_of, MaySend, IsKept, IsKept-sent, IsKept-failed, IsKept-other,
}

module _ (os : MonitorOs) (d : ℤ) (t n : ℕ) where
  -- The same in a state.
  pub record Inv (s : Sender) : Type 0 where
    pub is_target : t < length s.targets
    pub kept : IsKept d n (target_at s t) (times_of t n s.events)
    pub past : get_or (target_at s t).last_notif_sent n 0 ≤ os.clock s.calls

  Inv-at :
      (s : Sender) (target : Target) (ts : List ℕ)
      → t < length s.targets
      → target_at s t ≡ target
      → times_of t n s.events ≡ ts
      → IsKept d n target ts
      → get_or target.last_notif_sent n 0 ≤ os.clock s.calls
      → Inv s
  Inv-at s target ts h e f k p = record {
    is_target = h;
    kept = subst (IsKept d n (target_at s t)) (sym f) (subst (λ r. IsKept d n r ts) (sym e) k);
    past = subst (λ r. get_or r.last_notif_sent n 0 ≤ os.clock s.calls) (sym e) p;
  }

  times_of-notified :
      (t' n' time : ℕ) (a b c : Bytes) (es : List MonitorEvent)
      → times_of t n (notified t' n' time a b c ∷ es)
        ≡ (if t' == t && n' == n then time ∷ times_of t n es else times_of t n es)
  unfolding times_of
  times_of-notified t' n' time a b c es = refl

  module _ (monotone : (k : ℕ) → os.clock k ≤ os.clock (suc k))
      (started : (k : ℕ) → 0 < os.clock k) where
    -- What `send_to` leaves, where the fork worked and where it did not.
    abbrev sent : ℕ → Bytes → Bytes → Bytes → ℕ → Sender → Bool → Sender
    sent nidx a b c tidx s forked =
        let target = target_at s tidx in
        let now = os.clock (suc s.calls) in
        record {
          targets =
              set s.targets tidx
                (record target { last_notif_sent = set target.last_notif_sent nidx now });
          calls = suc (suc s.calls);
          events = if forked then notified tidx nidx now a b c ∷ s.events else s.events;
        }

    later : (k : ℕ) (x : ℕ) → x ≤ os.clock k → x ≤ os.clock (suc k)
    later k x h = omega (arith, h, monotone k)

    sent_other_target :
        (nidx : ℕ) (a b c : Bytes) (tidx : ℕ) (s : Sender) (forked : Bool)
        → (tidx == t) ≡ false
        → Inv s
        → Inv (sent nidx a b c tidx s forked)
    sent_other_target nidx a b c tidx s forked e v =
        Inv-at (sent nidx a b c tidx s forked) (target_at s t) (times_of t n s.events)
          (omega (arith, v.is_target, length-set s.targets tidx _))
          (get_or-set_ne s.targets tidx t _ no_target (λ q. cc (e, (==_iff tidx t).1 q)))
          (elim forked
            as (λ x. times_of t n (sent nidx a b c tidx s x).events ≡ times_of t n s.events) [
              | true ↦ times_of-notified tidx nidx _ a b c s.events ∙ rw e refl
              | false ↦ refl
            ])
          v.kept (later (suc s.calls) _ (later s.calls _ v.past))

    -- The target's new entry.
    abbrev noted : ℕ → Sender → Target
    noted nidx s =
        let target = target_at s t in
        record target { last_notif_sent = set target.last_notif_sent nidx (os.clock (suc s.calls)) }

    sent_here :
        (nidx : ℕ) (a b c : Bytes) (s : Sender) (forked : Bool) (ts : List ℕ)
        → Inv s
        → times_of t n (sent nidx a b c t s forked).events ≡ ts
        → IsKept d n (noted nidx s) ts
        → get_or (noted nidx s).last_notif_sent n 0 ≤ os.clock (suc (suc s.calls))
        → Inv (sent nidx a b c t s forked)
    sent_here nidx a b c s forked ts v e k p =
        Inv-at (sent nidx a b c t s forked) (noted nidx s) ts
          (omega (arith, v.is_target, length-set s.targets t (noted nidx s)))
          (get_or-set_self s.targets t (noted nidx s) no_target v.is_target) e k p

    sent_other_notif :
        (nidx : ℕ) (a b c : Bytes) (s : Sender) (forked : Bool)
        → (nidx == n) ≡ false
        → Inv s
        → Inv (sent nidx a b c t s forked)
    sent_other_notif nidx a b c s forked e v =
        let ne : nidx ≢ n = λ q. cc (e, (==_iff nidx n).1 q) in
        let old =
          get_or-set_ne (target_at s t).last_notif_sent nidx n (os.clock (suc s.calls)) 0 ne in
        sent_here nidx a b c s forked (times_of t n s.events) v
          (elim forked
            as (λ x. times_of t n (sent nidx a b c t s x).events ≡ times_of t n s.events) [
              | true ↦ times_of-notified t nidx _ a b c s.events ∙ rw (==_refl t, e) refl
              | false ↦ refl
            ])
          (IsKept-other d n nidx (target_at s t) _ _ v.kept ne)
          (omega (arith, old, monotone (suc s.calls), monotone s.calls, v.past))

    sent_this :
        (a b c : Bytes) (s : Sender) (forked : Bool)
        → MaySend d (get_or (target_at s t).last_notif_sent n 0) (os.clock (suc s.calls))
        → Inv s
        → Inv (sent n a b c t s forked)
    sent_this a b c s true m v =
        let now =
          get_or-set_self (target_at s t).last_notif_sent n (os.clock (suc s.calls)) 0
            v.kept.is_notif in
        sent_here n a b c s true (os.clock (suc s.calls) ∷ times_of t n s.events) v
          (times_of-notified t n _ a b c s.events ∙ rw (==_refl t, ==_refl n) refl)
          (IsKept-sent d n (target_at s t) _ _ v.kept m (started (suc s.calls)))
          (omega (arith, now, monotone (suc s.calls)))
    sent_this a b c s false m v =
        let now =
          get_or-set_self (target_at s t).last_notif_sent n (os.clock (suc s.calls)) 0
            v.kept.is_notif in
        sent_here n a b c s false (times_of t n s.events) v refl
          (IsKept-failed d n (target_at s t) _ _ v.kept (omega (arith, monotone s.calls, v.past)))
          (omega (arith, now, monotone (suc s.calls)))

    send_to-Inv :
        (nidx : ℕ) (a b c : Bytes) (tidx : ℕ) (s : Sender)
        → (tidx ≡ t
            → nidx ≡ n
            → MaySend d (get_or (target_at s t).last_notif_sent n 0) (os.clock (suc s.calls)))
        → Inv s
        → Inv (send_to os nidx a b c tidx s)
    unfolding send_to
    send_to-Inv nidx a b c tidx s m v = elim (Bool-cases (tidx == t)) [
      | inr e ↦ sent_other_target nidx a b c tidx s (os.fork s.calls) e v
      | inl e ↦
          let at_t = (==_iff tidx t).0 e in
          subst (λ k. Inv (sent nidx a b c k s (os.fork s.calls))) (sym at_t)
            (elim (Bool-cases (nidx == n)) [
              | inr f ↦ sent_other_notif nidx a b c s (os.fork s.calls) f v
              | inl f ↦
                  let at_n = (==_iff nidx n).0 f in
                  subst (λ k. Inv (sent k a b c t s (os.fork s.calls))) (sym at_n)
                    (sent_this a b c s (os.fork s.calls) (m at_t at_n) v)
            ])
    ]

    -- A call more changes nothing.
    pub Inv-call : (s : Sender) → Inv s → Inv (record s { calls = suc s.calls })
    Inv-call s v = record { is_target = v.is_target; kept = v.kept; past = later s.calls _ v.past }

    MaySend-never : (k last now : ℕ) → last ≡ 0 → MaySend (pos k) last now
    MaySend-never zero last now e = e
    MaySend-never (suc k) last now e = inl e

    MaySend-gap :
        (k last now : ℕ)
        → (k == 0) ≡ false
        → ltb (os.clock now - last) k ≡ false
        → MaySend (pos k) last (os.clock (suc (suc now)))
    MaySend-gap zero last now o l = cc
    MaySend-gap (suc k) last now o l = inr (ground (arith, l, monotone now, monotone (suc now)))

    MaySend-here :
        (nidx tidx : ℕ) (k : ℤ) (last now : ℕ) (s : Sender)
        → k ≡ (target_at s tidx).debouncing
        → last ≡ get_or (target_at s tidx).last_notif_sent nidx 0
        → Inv s
        → MaySend k last now
        → tidx ≡ t
        → nidx ≡ n
        → MaySend d (get_or (target_at s t).last_notif_sent n 0) now
    MaySend-here nidx tidx k last now s e f v m p q =
        let same_d = e ∙ ap (λ i. (target_at s i).debouncing) p ∙ v.kept.setting in
        let same_last =
          f
          ∙ ap (λ i. get_or (target_at s i).last_notif_sent nidx 0) p
          ∙ ap (λ j. get_or (target_at s t).last_notif_sent j 0) q in
        subst (λ x. MaySend x (get_or (target_at s t).last_notif_sent n 0) now) same_d
          (subst (λ x. MaySend k x now) same_last m)

    pub debounce-Inv :
        (nidx : ℕ) (a b c : Bytes) (tidx : ℕ) (k : ℤ) (last : ℕ) (s : Sender)
        → k ≡ (target_at s tidx).debouncing
        → last ≡ get_or (target_at s tidx).last_notif_sent nidx 0
        → Inv s
        → Inv (debounce os nidx a b c tidx k last s)
    unfolding debounce
    debounce-Inv nidx a b c tidx (negsuc k) last s e f v =
        send_to-Inv nidx a b c tidx s (MaySend-here nidx tidx (negsuc k) last _ s e f v tt) v
    debounce-Inv nidx a b c tidx (pos k) last s e f v = elim (Bool-cases (last == 0)) [
      | inl z ↦ rw z (
          send_to-Inv nidx a b c tidx s
            (MaySend-here nidx tidx (pos k) last _ s e f v
              (MaySend-never k last _ ((==_iff last 0).0 z)))
            v)
      | inr z ↦ elim (Bool-cases (k == 0)) [
        | inl o ↦ rw (z, o) v
        | inr o ↦ elim (Bool-cases (ltb (os.clock s.calls - last) k)) [
          | inl l ↦ rw (z, o, l) (Inv-call s v)
          | inr l ↦
              rw (z, o, l)
                (send_to-Inv nidx a b c tidx (record s { calls = suc s.calls })
                  (MaySend-here nidx tidx (pos k) last _ s e f v (MaySend-gap k last s.calls o l))
                  (Inv-call s v))
        ]
      ]
    ]
