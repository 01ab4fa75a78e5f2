-- ===== src/OperationQueue/Pending.antt =====
-- What `get_pending_operations_for_user` lists.
use Prim.Native.String.{String}
use text.Mathlib.Text.{◌==◌ as str_eq}
use mathlib.Core.List.{Memᴰ}
use mathlib.Core.List.Memᴰ
use franklink.Prelude.{◌≡◌, ◌⊎◌, Option, none, some, List, ◌++◌}
use franklink.OperationQueue.{QueuedOperation, Processor, as_list}

-- No type, or the empty text, asks for all types.
abbrev pub OfType : Option String → String → Type 0
OfType none operation_type = Unit
OfType (some wanted) operation_type = (wanted ≡ "") ⊎ (operation_type ≡ wanted)

module _ {P R : Type 0} (user : String) (type : Option String) where
  -- An operation of the user and the type, whose key the dict still has, that is processed or waits.
  pub record IsPending (p : Processor P R) (op : QueuedOperation P R) : Type 0 where
    pub kept : Memᴰ op.operation_id p.operations
    pub unended : Memᴰ op (as_list p.current ++ p.queue)
    pub owner : op.user_id ≡ user
    pub typed : OfType type op.operation_type
