-- ===== src/UdpStream/Limiter/Reading.antt =====
-- The loop reads every entry once.
use adaptive_transport.Common.{
  ℕ, zero, suc, ◌<◌, ◌≡◌, refl, ap, ◌∙◌, some, List, [], ◌∷◌, drop, length, arith,
}
use adaptive_transport.Ptt.{Ptt, Entry, read_advance}
use adaptive_transport.Ptt.View.{IsValid, in_flight, unread, first}
use adaptive_transport.Ptt.Ends.{rptr_lem, read_advance_lem, length-unread-lt}
use adaptive_transport.UdpStream.Limiter.{Stats, no_stats, note_entry, limiter_loop, limiter_stats}

-- The entries noted one after the other.
unfoldable pub noted : ℕ → List Entry → Stats → Stats
noted ts_updated [] s = s
noted ts_updated (m ∷ ms) s = noted ts_updated ms (note_entry ts_updated m s)

limiter_loop-noted :
    (fuel ts_updated : ℕ) (p : Ptt) (s : Stats) (ms : List Entry)
    → IsValid p
    → unread p ≡ ms
    → length ms < fuel
    → (p' : Ptt) × (limiter_loop fuel ts_updated p s ≡ some (noted ts_updated ms s, p'))
      × IsValid p'
      × (unread p' ≡ [])
      × (in_flight p' ≡ in_flight p)
unfolding limiter_loop noted first
limiter_loop-noted zero ts_updated p s ms v e le = absurd (omega arith)
limiter_loop-noted (suc fuel) ts_updated p s [] v e le =
    let none_left = (rptr_lem v).2 ∙ ap first e in
    (p, rw (none_left, limiter_loop) refl, v, e, refl)
limiter_loop-noted (suc fuel) ts_updated p s (m ∷ ms) v e le =
    let next = (rptr_lem v).2 ∙ ap first e in
    let (v1, left, same) = read_advance_lem 1 v (omega (arith, ap length e)) in
    let (p', runs, v', empty, flies) =
      limiter_loop-noted fuel ts_updated (read_advance p 1) (note_entry ts_updated m s) ms v1
        (left ∙ ap (drop 1) e) (omega arith) in
    (p', rw (next, limiter_loop) runs, v', empty, flies ∙ same)

-- For a ring in order `limiterStats` ends: it has noted each entry that could be read once, oldest
-- first, no entry can be read any more, and those in flight are as before.
pub limiter_stats_lem :
    (ts_updated : ℕ) {p : Ptt}
    → IsValid p
    → (p' : Ptt) × (limiter_stats ts_updated p ≡ some (noted ts_updated (unread p) no_stats, p'))
      × IsValid p'
      × (unread p' ≡ [])
      × (in_flight p' ≡ in_flight p)
unfolding limiter_stats
limiter_stats_lem ts_updated {p} v =
    limiter_loop-noted p.size ts_updated p no_stats (unread p) v refl (length-unread-lt v)
