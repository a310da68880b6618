-- ===== src/Cascade/Register/Script.antt =====
-- The order of what a registration does, and for what it does it.
use supernode.Base.{
  Bool, true, false, none, some, bytes_eq, bytes_eq_refl, ◌&&◌, Option-cases, inl, inr, ◌≡◌, List,
  [], ◌∷◌, Bytes, length, ◌==◌, take, arith,
}
use supernode.Cascade.{Services, EventType, Effect, streamed, delivers, stores, finalizes, removes}
use supernode.Cascade.Steps.{fetch_action, RegisterRequest}
use supernode.Cascade.Register.{store_artefacts, finalize, register}
use supernode.Cascade.Register.Safety.{succeeds}

-- What is seen of an effect.
pub data Mark : Type 0 where
  event : EventType → Mark
  store_call finalize_call removal delivery : Mark

abbrev mark : Effect → Mark
mark (streamed t text) = Mark.event t
mark (delivers path dir) = Mark.delivery
mark (stores files dir id) = Mark.store_call
mark (finalizes id rqids) = Mark.finalize_call
mark (removes path) = Mark.removal

abbrev pub marks : List Effect → List Mark
marks [] = []
marks (e ∷ es) = mark e ∷ marks es

-- A registration from its beginning to its end.
abbrev pub script : List Mark
script =
    Mark.event EventType.action_retrieved
    ∷ Mark.event EventType.action_fee_verified
    ∷ Mark.event EventType.top_supernode_check_passed
    ∷ Mark.event EventType.metadata_decoded
    ∷ Mark.event EventType.data_hash_verified
    ∷ Mark.event EventType.input_encoded
    ∷ Mark.event EventType.signature_verified
    ∷ Mark.event EventType.rq_ids_generated
    ∷ Mark.event EventType.rq_ids_verified
    ∷ Mark.store_call
    ∷ Mark.event EventType.artefacts_stored
    ∷ Mark.finalize_call
    ∷ Mark.event EventType.action_finalized
    ∷ Mark.removal
    ∷ []

-- The calls are for the action of the request, and the removal is of its file.
abbrev targets : Services → RegisterRequest → Effect → Bool
targets s req (stores files dir id) = elim (s.get_action req.action_id) [
  | none ↦ false
  | some action ↦ bytes_eq action.action_id id
]
targets s req (finalizes id rqids) = elim (s.get_action req.action_id) [
  | none ↦ false
  | some action ↦ bytes_eq action.action_id id
]
targets s req (removes path) = bytes_eq req.file_path path
targets s req _ = true

abbrev pub all_target : Services → RegisterRequest → List Effect → Bool
all_target s req [] = true
all_target s req (e ∷ es) = targets s req e && all_target s req es

register-script :
    (s : Services) (account : Bytes) (req : RegisterRequest)
    → let run = register s account req [] in
      (marks run.1 ≡ take (length run.1) script) × (succeeds run.0 ≡ (length run.1 == 14))
unfolding register store_artefacts finalize
register-script s account req = ground arith

register-targets :
    (s : Services) (account : Bytes) (req : RegisterRequest)
    → all_target s req (register s account req []).1 ≡ true
unfolding register store_artefacts finalize fetch_action
register-targets s account req = elim (Option-cases (s.get_action req.action_id)) [
  | inl missing ↦ ground (arith, missing)
  | inr (action, e) ↦ ground (arith, e, bytes_eq_refl action.action_id, bytes_eq_refl req.file_path)
]

-- Whatever the request and the services give, a registration does the first of these fourteen things
-- and no other, in this order: it streams the first nine events, calls the store, streams the tenth,
-- calls the finalization, streams the eleventh and removes the input file. It succeeds exactly if it
-- does all of them. The calls are for the action that was read for the request, and the file that it
-- removes is the request's.
pub register-follows_script :
    (s : Services) (account : Bytes) (req : RegisterRequest)
    → let run = register s account req [] in
      (marks run.1 ≡ take (length run.1) script)
      × (succeeds run.0 ≡ (length run.1 == 14))
      × (all_target s req run.1 ≡ true)
register-follows_script s account req =
    let (order, success) = register-script s account req in
    (order, success, register-targets s account req)
