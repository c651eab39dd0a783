-- ===== src/Gpredict/Table/Writes.antt =====
-- What reading and writing the table of gpredict/parameters/gpredict_table.c does to the node.
use kfsw_modules.Prelude.{
  ℕ, ◌+◌, ◌≤◌, ◌≡◌, refl, ap, ◌∙◌, some, none, List, [], ◌∷◌, arith, saturating_inc,
}
use kfsw_modules.Errno.{ok}
use kfsw_modules.Gpredict.Config.{Config}
use kfsw_modules.Gpredict.Machine.{State}
use kfsw_modules.Gpredict.Tracker.{get_status, silence_now, silence_work_handler}
use kfsw_modules.Gpredict.Tracker.Silence.{IsFollowing, pass_ends}
use kfsw_modules.Gpredict.Profiles.{Node}
use kfsw_modules.Gpredict.Table.{sample_tracker}
use kfsw_modules.Gpredict.Table.Samplers.{
  Variables, number, TrackerField, Sampler, sampled, validate_grace, grace_changed,
}

-- Any number of entries, read one after the other, each at its time.
unfoldable pub reads : Config → List (ℕ × Sampler) → Node → Variables → Node × Variables
unfolding sampled
reads c [] n v = (n, v)
reads c ((now, s) ∷ rest) n v = let (n', v', _) = sampled c now s n v in reads c rest n' v'

abbrev pub with_silence : ℕ → Node → Node
with_silence ms n = record n {
  tracker = record n.tracker { status = record n.tracker.status { silence_ms = ms } };
}

pub sampled-silence :
    (c : Config) (now : ℕ) (s : Sampler) (n : Node) (v : Variables)
    → (ms : ℕ) × ((sampled c now s n v).0 ≡ with_silence ms n)
unfolding sampled sample_tracker get_status
sampled-silence c now (Sampler.tracker field) n v = (silence_now now n.tracker, refl)
sampled-silence c now (Sampler.slots field) n v = (n.tracker.status.silence_ms, refl)

-- Reading disturbs nothing: whatever entries of the table are read, in whatever order and however
-- often, the node afterwards is the node before, but for the silence that the status reports.
pub reads-keep :
    (c : Config) (rs : List (ℕ × Sampler)) (n : Node) (v : Variables)
    → (ms : ℕ) × ((reads c rs n v).0 ≡ with_silence ms n)
unfolding reads
reads-keep c [] n v = (n.tracker.status.silence_ms, refl)
reads-keep c ((now, s) ∷ rest) n v =
    let (first, e) = sampled-silence c now s n v in
    let (last, f) = reads-keep c rest (sampled c now s n v).0 (sampled c now s n v).1 in
    (last, f ∙ ap (with_silence last) e)

grace_changed-IsFollowing :
    (seen ms : ℕ) (n : Node)
    → IsFollowing seen n.tracker
    → validate_grace ms ≡ ok
    → IsFollowing seen (grace_changed ms n).tracker
      × ((grace_changed ms n).tracker.silence_work ≡ some ms)
      × ((grace_changed ms n).tracker.status.grace_ms ≡ ms)
      × ((grace_changed ms n).tracker.status.passes_ended ≡ n.tracker.status.passes_ended)
unfolding grace_changed validate_grace
grace_changed-IsFollowing seen ms n f h = ground (arith, h, f.state, f.at, f.heard)

-- A grace period that the table accepts while a pass is followed governs the end of that pass: it
-- reads back as written, the silence work is due after it, and if no further bearing arrives the
-- first wake that is that long after the last bearing holds the antenna and asks for one more such
-- wait, and the next wake, no earlier, leaves for the park position and counts one ended pass.
pub grace_written :
    (c : Config) (seen ms read_at now later : ℕ) (n : Node) (v : Variables)
    → IsFollowing seen n.tracker
    → validate_grace ms ≡ ok
    → seen + ms ≤ now
    → now ≤ later
    → let n' = grace_changed ms n in
      let held = silence_work_handler c now n'.tracker in
      let done = silence_work_handler c later held in
      ((sampled c read_at (Sampler.tracker TrackerField.grace_ms) n' v).2 ≡ number ms)
      × (n'.tracker.silence_work ≡ some ms)
      × (held.status.state ≡ State.holding)
      × (held.silence_work ≡ some ms)
      × (done.status.state ≡ State.parking)
      × (done.silence_work ≡ none)
      × (done.status.passes_ended ≡ saturating_inc n.tracker.status.passes_ended)
unfolding sampled sample_tracker get_status
grace_written c seen ms read_at now later n v f h due after =
    let (followed, work, grace, ended) = grace_changed-IsFollowing seen ms n f h in
    let (held, again, _, parked, quiet, counted, _, _) =
      pass_ends c seen now later (grace_changed ms n).tracker followed (omega (arith, grace))
        after in
    (
      ap number grace,
      work,
      held,
      again ∙ ap some grace,
      parked,
      quiet,
      counted ∙ ap saturating_inc ended,
    )
