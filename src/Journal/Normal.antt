-- ===== src/Journal/Normal.antt =====
-- What `New` accepts is kept by normalization and by updates.
use stds_backend_go.Prelude.{
  ◌≡◌, false, Bool-cases, inl, inr, String, Option, none, some, arith, ◌==◌, ok, Leaves, Keeps,
  Keeps-method, Keeps-then,
}
use stds_backend_go.Prelude.Text.{trim_space, trim_space_idem, trim_optional, trim_optional_idem}
use stds_backend_go.Prelude.Patch.{patch_text-trimmed}
use stds_backend_go.Journal.Defs.{
  State, UpdateInput, normalize_state, rehydrate, update_content, update_expense, update,
}

pub record IsNormal (s : State) : Type 0 where
  pub id : trim_space s.id ≡ s.id
  pub property_id : trim_space s.property_id ≡ s.property_id
  pub author_id : trim_space s.author_id ≡ s.author_id
  pub content : trim_space s.content ≡ s.content
  pub content_given : (s.content == "") ≡ false
  pub room_id : trim_optional s.room_id ≡ s.room_id
  pub expense_description : trim_optional s.expense_description ≡ s.expense_description

module _ (s : State) {t : State} (h : normalize_state s ≡ ok t) where
  normal_ids :
      (trim_space t.id ≡ t.id)
      × (trim_space t.property_id ≡ t.property_id)
      × (trim_space t.author_id ≡ t.author_id)
  unfolding normalize_state
  normal_ids =
      ground
        (arith, trim_space_idem s.id, trim_space_idem s.property_id, trim_space_idem s.author_id)

  normal_content : (trim_space t.content ≡ t.content) × ((t.content == "") ≡ false)
  unfolding normalize_state
  normal_content = ground (arith, trim_space_idem s.content)

  normal_texts :
      (trim_optional t.room_id ≡ t.room_id)
      × (trim_optional t.expense_description ≡ t.expense_description)
  unfolding normalize_state
  normal_texts =
      ground (arith, trim_optional_idem s.room_id, trim_optional_idem s.expense_description)

  normalize_state-IsNormal : IsNormal t
  normalize_state-IsNormal =
      let (id, property_id, author_id) = normal_ids in
      let (content, content_given) = normal_content in
      let (room_id, expense_description) = normal_texts in
      record {
        id = id;
        property_id = property_id;
        author_id = author_id;
        content = content;
        content_given = content_given;
        room_id = room_id;
        expense_description = expense_description;
      }

rehydrate_normal : (t : State) → IsNormal t → rehydrate t ≡ ok t
unfolding rehydrate normalize_state
rehydrate_normal t n = ground arith

with_content :
    (s : State) (x : String)
    → IsNormal s
    → trim_space x ≡ x
    → (x == "") ≡ false
    → IsNormal (record s { content = x })
with_content s x n h e = ground arith

with_expense :
    (s : State) (o : Option String)
    → IsNormal s
    → trim_optional o ≡ o
    → IsNormal (record s { expense_description = o })
with_expense s o n h = ground arith

update_content-IsNormal :
    (input : Option String) (s : State) → IsNormal s → Leaves IsNormal (update_content input s)
unfolding update_content
update_content-IsNormal none s n = record { holds = n }
update_content-IsNormal (some input) s n = elim (Bool-cases (trim_space input == "")) [
  | inl blank ↦ rw blank (record { holds = n })
  | inr full ↦
      rw full (record { holds = with_content s (trim_space input) n (trim_space_idem input) full })
]

update_expense-IsNormal :
    (input : UpdateInput) (s : State) → IsNormal s → Leaves IsNormal (update_expense input s)
update_expense-IsNormal input s n =
    let patched =
      patch_text-trimmed input.expense_description false s.expense_description
        n.expense_description in
    record {
      holds = record {
        id = n.id;
        property_id = n.property_id;
        author_id = n.author_id;
        content = n.content;
        content_given = n.content_given;
        room_id = n.room_id;
        expense_description = patched;
      };
    }

update-IsNormal : (input : UpdateInput) → Keeps IsNormal (update input)
unfolding update
update-IsNormal input =
    Keeps-then (Keeps-method _ (update_content-IsNormal input.content))
      (Keeps-method _ (update_expense-IsNormal input))

-- `Update` of a journal log that `New` or `Rehydrate` returned leaves, with an error or without, a
-- log that `Rehydrate` accepts and returns unchanged.
pub rehydrate-update_log :
    (s : State) (input : UpdateInput) {t : State}
    → normalize_state s ≡ ok t
    → rehydrate (update input t).0 ≡ ok (update input t).0
rehydrate-update_log s input {t} h =
    rehydrate_normal (update input t).0
      ((update-IsNormal input).keeps t (normalize_state-IsNormal s h)).holds
