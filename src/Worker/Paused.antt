-- ===== src/Worker/Paused.antt =====
-- The kill switch, from the operator's update (src/storage/postgres_governance.py) to the mutations of
-- the worker (src/engine/worker.py).
use financial_control_engine.Base.{ℕ, String, ◌≡◌, refl, ap, ◌∙◌, sym, true, List, [], ◌∷◌, some}
use financial_control_engine.Core.Models.{RecoveryIntent}
use financial_control_engine.Governance.Models.{paused, ControlPlaneState}
use financial_control_engine.Governance.Gate.{find_plane, plane_blocks, is_paused}
use financial_control_engine.Governance.Claims.{paused_blocks}
use financial_control_engine.Governance.Storage.{update_control_plane_state_occ}
use financial_control_engine.Governance.Updates.{update-Updated}
use financial_control_engine.Worker.Runs.{World, Mutation}
use financial_control_engine.Worker.Services.{Services}
use financial_control_engine.Worker.Process.{Task, decide, request}
use financial_control_engine.Worker.Stages.{process-Keeps}
use financial_control_engine.Worker.Loop.{poll_and_process}
use financial_control_engine.Worker.Polling.{poll-Keeps}
use financial_control_engine.Worker.Logic.{meets_world}
use financial_control_engine.Worker.Steady.{Over}
use financial_control_engine.Worker.Sending.{Property, Sends, Sends-Steps}
use financial_control_engine.Worker.Sent.{Poll, polls}

-- The mutations that were sent so far are `sent`, and automation is paused.
abbrev pub Halted : List Mutation → Property
Halted sent m a p = (m ≡ sent) × (plane_blocks (find_plane "GLOBAL" p.0) ≡ true)

halted-Sends :
    (sent : List Mutation) (s : Services) (t : Task) (i : RecoveryIntent)
    → Sends s t i (Halted sent) (λ n m a p. ⊥) (Halted sent)
halted-Sends sent s t i = record {
  unsent = λ m a p h. h;
  claims = λ n m db h g. cc ((paused_blocks s.encoders (request s t i n) db h.1).0, g);
  claimed = λ n m a p h. absurd h;
  sends = λ n m a p h. absurd h;
  records = λ x m a b p h save. h;
}

halted-polls :
    (sent : List Mutation) (xs : List Poll) (w : World)
    → Over (Halted sent) w
    → Over (Halted sent) (polls xs w)
unfolding polls
halted-polls sent [] w h = h
halted-polls sent (x ∷ xs) w h =
    let kept =
      poll-Keeps (Halted sent) x.services x.worker
        (λ t. process-Keeps (λ start.
          Sends-Steps {T = Halted sent} {V = Halted sent} (λ m a p k. k)
            (λ c l e o k n.
              ((λ n m a p. ⊥), halted-Sends sent x.services t (decide x.services t c l)))))
        x.limit in
    halted-polls sent xs (poll_and_process x.services x.worker x.limit w).1 (meets_world kept w h)

abbrev pub with_planes : List ControlPlaneState → World → World
with_planes planes w = record w { database = record w.database { control_planes = planes } }

-- Once an operator's update of the global control plane to PAUSED has succeeded, no mutation is sent by
-- the polls of any workers, whatever they are answered.
pub pause_stops_sending :
    (new : ControlPlaneState) (now : ℕ) (xs : List Poll) (w : World)
    → new.id ≡ "GLOBAL"
    → new.automation_state ≡ paused
    → let (done, planes) = update_control_plane_state_occ new now w.database.control_planes in
      done ≡ true → (polls xs (with_planes planes w)).mutations ≡ w.mutations
pause_stops_sending new now xs w global pausing done =
    let planes = (update_control_plane_state_occ new now w.database.control_planes).1 in
    let u = update-Updated new now w.database.control_planes done in
    let found : find_plane "GLOBAL" planes ≡ some u.row =
      ap (λ (k : String). find_plane k planes) (sym global) ∙ u.found in
    let blocks : is_paused u.row.automation_state ≡ true = rw (u.state, pausing) refl in
    (halted-polls w.mutations xs (with_planes planes w) (refl, rw found blocks)).0
