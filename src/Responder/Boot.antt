-- ===== src/Responder/Boot.antt =====
-- The journal of bin/nodeguard-responder across a restart and a reboot: `save`, then `Journal(path)`.
use nodeguard.Prelude.{
  ℕ, ◌≡◌, refl, ap, String, Bool, true, false, leb, ◌+◌, ◌*◌, ◌∷◌, not, ◌&&◌, Option, none, some,
  [], str_eq, if◌then◌else◌, arith, ◌∙◌, if-elim,
}
use nodeguard.Prelude.Dict.{Dict, lookup, keep_if}
use nodeguard.Responder.State.{
  second, Clock, Offender, File, Journal, is_stamp, seen_since, offender, save, expire_windows,
  prune, load,
}

-- No record of the dict has a window.
abbrev NoWindows : Dict Offender → Type 0
NoWindows [] = Unit
NoWindows ((ip, r) ∷ d) = (r.blocked_until ≡ 0) × NoWindows d

expire_windows-NoWindows : (d : Dict Offender) → NoWindows (expire_windows d)
unfolding expire_windows
expire_windows-NoWindows [] = tt
expire_windows-NoWindows ((ip, r) ∷ d) = (refl, expire_windows-NoWindows d)

keep_if-NoWindows :
    (p : Offender → Bool) (d : Dict Offender) → NoWindows d → NoWindows (keep_if p d)
unfolding keep_if
keep_if-NoWindows p [] w = tt
keep_if-NoWindows p ((ip, r) ∷ d) w =
    if-elim NoWindows (p r) _ _ (w.0, keep_if-NoWindows p d w.1) (keep_if-NoWindows p d w.1)

abbrev window : Option Offender → ℕ
window none = 0
window (some r) = r.blocked_until

NoWindows-lookup : (ip : String) (d : Dict Offender) → NoWindows d → window (lookup ip d) ≡ 0
unfolding lookup
NoWindows-lookup ip [] w = refl
NoWindows-lookup ip ((i, r) ∷ d) w =
    if-elim (λ o. window o ≡ 0) (str_eq i ip) (some r) (lookup ip d) w.0 (NoWindows-lookup ip d w.1)

offender-window :
    (ip : String) (j : Journal) → (offender ip j).blocked_until ≡ window (lookup ip j.entries)
unfolding offender
offender-window ip j = ground arith

-- A journal written under another boot, or without a stamp, is loaded without a window.
pub load-expires :
    (time : Clock) (boot : String) (f : File) (ip : String)
    → is_stamp f.boot_stamp boot ≡ false
    → (offender ip (load time boot f)).blocked_until ≡ 0
unfolding load prune save
load-expires time boot f ip e =
    offender-window ip _
    ∙ NoWindows-lookup ip _
        (keep_if-NoWindows (seen_since (time 0)) _ (rw e (expire_windows-NoWindows f.records)))

-- What is to be left of records, in their order: those whose last sighting is at most 30 days (2,592,000
-- seconds) before the time, with their windows over unless they stay.
abbrev pub survivors : ℕ → Bool → Dict Offender → Dict Offender
survivors now stay [] = []
survivors now stay ((ip, r) ∷ d) =
    let later = survivors now stay d in
    if leb now (r.last_seen + 2592000 * second)
    then (
      ip,
      record {
        count = r.count;
        shadow_hits = r.shadow_hits;
        blocked_until = if stay then r.blocked_until else 0;
        first_seen = r.first_seen;
        last_seen = r.last_seen;
        sid = r.sid;
      },
    )
      ∷ later
    else later

survivors-stay : (now : ℕ) (d : Dict Offender) → keep_if (seen_since now) d ≡ survivors now true d
unfolding keep_if
survivors-stay now [] = refl
survivors-stay now ((ip, r) ∷ d) = rw (survivors-stay now d) refl

survivors-expired :
    (now : ℕ) (d : Dict Offender)
    → keep_if (seen_since now) (expire_windows d) ≡ survivors now false d
unfolding keep_if expire_windows
survivors-expired now [] = refl
survivors-expired now ((ip, r) ∷ d) = rw (survivors-expired now d) refl

loaded-survivors :
    (now : ℕ) (stay : Bool) (d : Dict Offender)
    → keep_if (seen_since now) (if stay then d else expire_windows d) ≡ survivors now stay d
loaded-survivors now true d = survivors-stay now d
loaded-survivors now false d = survivors-expired now d

-- A journal that was saved is loaded again with exactly the records last seen at most 30 days before
-- the load, in their order. Under the boot that saved it, if that boot's id is known, they are as they
-- were; otherwise each has its window reset to 0 and all else as it was.
pub load-save :
    (time : Clock) (now : ℕ) (boot : String) (j : Journal)
    → (load time boot (save now j).file).entries
      ≡ survivors (time 0) (not (str_eq j.boot "") && str_eq j.boot boot) j.entries
unfolding load prune save
load-save time now boot j =
    ap (keep_if (seen_since (time 0))) (ground arith)
    ∙ loaded-survivors (time 0) (not (str_eq j.boot "") && str_eq j.boot boot) j.entries
