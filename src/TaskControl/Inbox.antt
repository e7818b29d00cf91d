-- ===== src/TaskControl/Inbox.antt =====
-- `inbox` of task_control.py: the open deliveries addressed to a principal.
use universal_agent_middlewa.Prelude.{
  ℕ, String, Bool, not, ◌&&◌, ◌||◌, List, [], ◌∷◌, str_eq, ltb, ◌==◌, length, take, map, codes,
  keep,
}
use universal_agent_middlewa.Prelude.PyValue.{PyValue}
use universal_agent_middlewa.Prelude.Sort.{sort, codes_before}
use universal_agent_middlewa.TaskControl.Model.{Delivery, is_terminal, max_scan}
use universal_agent_middlewa.TaskControl.Result.{ok}
use universal_agent_middlewa.TaskControl.Validate.{validate_principal, validate_limit}
use universal_agent_middlewa.TaskControl.Port.{World, Proc, ◌>>=◌, lift}
use universal_agent_middlewa.TaskControl.Views.{SummaryView, summary_view}

pub record Inbox : Type 0 where
  pub items : List SummaryView
  pub truncated : Bool

-- the order of the paths `dlv-*.json`, and of the items of an inbox
unfoldable pub path_before : Delivery → Delivery → Bool
path_before a b = codes_before (codes a.delivery_id) (codes b.delivery_id)

unfoldable pub item_before : SummaryView → SummaryView → Bool
item_before a b =
    ltb a.created_at b.created_at
    || (a.created_at == b.created_at && codes_before (codes a.delivery_id) (codes b.delivery_id))

unfoldable pub values : List (String × Delivery) → List Delivery
values [] = []
values ((k, d) ∷ rest) = d ∷ values rest

-- `_delivery_paths`, with the records that the paths hold
unfoldable pub delivery_files : World → List Delivery
unfolding path_before values
delivery_files w = sort path_before (values w.deliveries)

unfoldable pub is_open_for : String → Delivery → Bool
is_open_for who d = str_eq d.recipient who && not (is_terminal d.state)

-- the answer of `inbox` after the scan
unfoldable pub inbox_of : String → ℕ → List Delivery → Inbox
unfolding item_before is_open_for
inbox_of who limit files =
    let items =
      sort item_before (map summary_view (keep (is_open_for who) (take max_scan files))) in
    record {
      items = take limit items;
      truncated = ltb max_scan (length files) || ltb limit (length items);
    }

-- `inbox`
unfoldable pub inbox : PyValue → PyValue → Proc Inbox
unfolding inbox_of delivery_files
inbox principal limit = lift (validate_principal principal) >>= λ who.
    lift (validate_limit limit) >>= λ n. λ w. (ok (inbox_of who n (delivery_files w)), w)
