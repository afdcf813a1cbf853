-- ===== src/Monitor/Notify/Kept.antt =====
-- `debouncing`: what a target keeps of the notifications that it was sent.
use docker_baseimage.Base.{
  ℕ, zero, suc, ◌+◌, ◌≤◌, ◌<◌, ◌≡◌, ◌≢◌, sym, subst, ◌⊎◌, inl, inr, ◌&&◌, List, [], ◌∷◌, arith,
  ◌==◌, if◌then◌else◌, length, set, get_or, length-set, get_or-set_self, get_or-set_ne,
}
use docker_baseimage.Base.Int.{ℤ, pos, negsuc}
use docker_baseimage.Monitor.{
  Target, MonitorEvent, executed, opened, closed, to_start, to_end, notified,
}

-- The times noted for the notifications `n` that a target `t` was sent, the latest first.
unfoldable pub times_of : ℕ → ℕ → List MonitorEvent → List ℕ
times_of t n [] = []
times_of t n (executed exe line ∷ es) = times_of t n es
times_of t n (opened path fd ∷ es) = times_of t n es
times_of t n (closed fd ∷ es) = times_of t n es
times_of t n (to_start fd ∷ es) = times_of t n es
times_of t n (to_end fd ∷ es) = times_of t n es
times_of t n (notified t' n' time title desc level ∷ es) =
    let rest = times_of t n es in if t' == t && n' == n then time ∷ rest else rest

-- At least `d` seconds between two of them.
abbrev pub HasGaps : ℕ → List ℕ → Type 0
HasGaps d [] = Unit {0}
HasGaps d (x ∷ []) = Unit {0}
HasGaps d (x ∷ y ∷ ts) = (y + d ≤ x) × HasGaps d (y ∷ ts)

-- What a value of `debouncing` asks for: 0 for once at most, another one for gaps, and a negative
-- one for nothing.
abbrev pub IsDebounced : ℤ → List ℕ → Type 0
IsDebounced (negsuc k) ts = Unit {0}
IsDebounced (pos zero) ts = length ts ≤ 1
IsDebounced (pos (suc k)) ts = HasGaps (suc k) ts

-- The latest of them is not later than the time that the target keeps.
abbrev pub IsLatest : List ℕ → ℕ → Type 0
IsLatest [] last = Unit {0}
IsLatest (x ∷ ts) last = (0 < x) × (x ≤ last)

-- When it may be sent at a time that is not before `now`.
abbrev pub MaySend : ℤ → ℕ → ℕ → Type 0
MaySend (negsuc k) last now = Unit {0}
MaySend (pos zero) last now = last ≡ 0
MaySend (pos (suc k)) last now = (last ≡ 0) ⊎ (last + suc k ≤ now)

IsDebounced-send :
    (d : ℤ) (ts : List ℕ) (last now : ℕ)
    → IsDebounced d ts
    → IsLatest ts last
    → MaySend d last now
    → IsDebounced d (now ∷ ts)
IsDebounced-send (negsuc k) ts last now h l m = tt
IsDebounced-send (pos zero) [] last now h l m = omega arith
IsDebounced-send (pos zero) (x ∷ ts) last now h l m = absurd (omega (arith, l.0, l.1, m))
IsDebounced-send (pos (suc k)) [] last now h l m = tt
IsDebounced-send (pos (suc k)) (x ∷ ts) last now h l (inl z) = absurd (omega (arith, l.0, l.1, z))
IsDebounced-send (pos (suc k)) (x ∷ ts) last now h l (inr le) = (omega (arith, l.1, le), h)

-- What a target keeps for the notification `n`, where these times are noted for it.
pub record IsKept (d : ℤ) (n : ℕ) (target : Target) (ts : List ℕ) : Type 0 where
  pub setting : target.debouncing ≡ d
  pub is_notif : n < length target.last_notif_sent
  pub latest : IsLatest ts (get_or target.last_notif_sent n 0)
  pub spaced : IsDebounced d ts

pub IsKept-sent :
    (d : ℤ) (n : ℕ) (target : Target) (ts : List ℕ) (now : ℕ)
    → IsKept d n target ts
    → MaySend d (get_or target.last_notif_sent n 0) now
    → 0 < now
    → IsKept d n (record target { last_notif_sent = set target.last_notif_sent n now }) (now ∷ ts)
IsKept-sent d n target ts now k m p =
    let kept = get_or-set_self target.last_notif_sent n now 0 k.is_notif in
    record {
      setting = k.setting;
      is_notif = omega (arith, k.is_notif, length-set target.last_notif_sent n now);
      latest = (omega (arith, p, kept), omega (arith, kept));
      spaced = IsDebounced-send d ts _ now k.spaced k.latest m;
    }

IsLatest-later : (ts : List ℕ) (last now : ℕ) → IsLatest ts last → last ≤ now → IsLatest ts now
IsLatest-later [] last now l h = tt
IsLatest-later (x ∷ ts) last now l h = (l.0, omega (arith, l.1, h))

-- The time is noted also where the notification could not be sent.
pub IsKept-failed :
    (d : ℤ) (n : ℕ) (target : Target) (ts : List ℕ) (now : ℕ)
    → IsKept d n target ts
    → get_or target.last_notif_sent n 0 ≤ now
    → IsKept d n (record target { last_notif_sent = set target.last_notif_sent n now }) ts
IsKept-failed d n target ts now k h =
    let kept = get_or-set_self target.last_notif_sent n now 0 k.is_notif in
    record {
      setting = k.setting;
      is_notif = omega (arith, k.is_notif, length-set target.last_notif_sent n now);
      latest = subst (IsLatest ts) (sym kept) (IsLatest-later ts _ now k.latest h);
      spaced = k.spaced;
    }

pub IsKept-other :
    (d : ℤ) (n nidx : ℕ) (target : Target) (ts : List ℕ) (now : ℕ)
    → IsKept d n target ts
    → nidx ≢ n
    → IsKept d n (record target { last_notif_sent = set target.last_notif_sent nidx now }) ts
IsKept-other d n nidx target ts now k ne = record {
  setting = k.setting;
  is_notif = omega (arith, k.is_notif, length-set target.last_notif_sent nidx now);
  latest =
      subst (IsLatest ts) (sym (get_or-set_ne target.last_notif_sent nidx n now 0 ne)) k.latest;
  spaced = k.spaced;
}
