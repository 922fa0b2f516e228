-- ===== src/Journal/Defs.antt =====
-- The journal log aggregate. A method that is called on nil returns an error.
use stds_backend_go.Prelude.{
  false, String, Option, none, some, ◌==◌, if◌then◌else◌, Result, ok, err, Method, ◌▸◌,
}
use stds_backend_go.Prelude.Int.{ℤ}
use stds_backend_go.Prelude.Text.{trim_space, trim_optional}
use stds_backend_go.Prelude.Patch.{patch, patch_text}

pub record State : Type 0 where
  pub id : String
  pub property_id : String
  pub room_id : Option String
  pub author_id : String
  pub content : String
  pub expense_amount : Option ℤ
  pub expense_description : Option String

pub record UpdateInput : Type 0 where
  pub content : Option String
  pub expense_amount : Option ℤ
  pub expense_description : Option String

pub data JournalError : Type 0 where
  content_required nil_aggregate : JournalError

unfoldable pub normalize_state : State → Result JournalError State
normalize_state state =
    let content = trim_space state.content in
    if content == ""
    then err content_required
    else ok (record state {
      id = trim_space state.id;
      property_id = trim_space state.property_id;
      author_id = trim_space state.author_id;
      content = content;
      room_id = trim_optional state.room_id;
      expense_description = trim_optional state.expense_description;
    })

unfoldable pub new : State → Result JournalError State
new state = normalize_state state

unfoldable pub rehydrate : State → Result JournalError State
rehydrate state = normalize_state state

unfoldable pub update_content : Option String → Method State JournalError
update_content none a = (a, none)
update_content (some input) a =
    let content = trim_space input in
    if content == "" then (a, some content_required) else (record a { content = content }, none)

abbrev pub update_expense : UpdateInput → Method State JournalError
update_expense input a = (
  record a {
    expense_amount = patch input.expense_amount false a.expense_amount;
    expense_description = patch_text input.expense_description false a.expense_description;
  },
  none,
)

unfoldable pub update : UpdateInput → Method State JournalError
update input = update_content input.content ▸ update_expense input

-- `Update` on a pointer.
unfoldable pub update_nilable : UpdateInput → Option State → Option State × Option JournalError
update_nilable input none = (none, some nil_aggregate)
update_nilable input (some a) = let (after, e) = update input a in (some after, e)
