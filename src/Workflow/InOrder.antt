-- ===== src/Workflow/InOrder.antt =====
-- The schedule that visits a map in the order of insertion and receives results in the order of the
-- IDs: one of those that Go leaves open.
use anchora.Prelude.{perm_refl}
use anchora.Workflow.{Schedule}

abbrev pub in_order : Schedule
in_order = record {
  visit_keys = λ l. l;
  visit_keys_perm = perm_refl;
  visit_steps = λ l. l;
  visit_steps_perm = perm_refl;
  arrivals = λ l. l;
  arrivals_perm = perm_refl;
}
