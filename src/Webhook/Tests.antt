-- ===== src/Webhook/Tests.antt =====
-- A delivery that nobody takes.
use tunploy.Common.{ℕ, ◌+◌, ◌≤◌, ◌≡◌, refl, false, none, some, List, [], ◌∷◌, arith}
use tunploy.Common.Text.{codes}
use tunploy.Store.Webhooks.{Delivery, new_delivery, is_pending}
use tunploy.Webhook.{Net, no_response}
use tunploy.Webhook.Tries.{Try, try_all, try_all-settles}

abbrev net : Net
net = record {
  post = λ s d t. no_response (codes "refused");
  sign = λ s t p. s;
  stopped = λ id. false;
  took = λ d t. 0;
}

abbrev refused : ℕ → Try
refused t = (t, 0, some (codes "refused"))

abbrev delivery : Delivery
delivery = new_delivery 1 1 1 (codes "device.created") [] 0

abbrev tries : List Try
tries =
    refused 0
    ∷ refused 1
    ∷ refused 2
    ∷ refused 3
    ∷ refused 4
    ∷ refused 5
    ∷ refused 6
    ∷ refused 7
    ∷ []

try_all-settles_example :
    ((try_all net delivery tries).attempts ≤ 7)
    × (7 ≤ 0 + 8
        → (is_pending (try_all net delivery tries).state ≡ false)
          × ((try_all net delivery tries).next_attempt ≡ none))
try_all-settles_example =
    try_all-settles net delivery tries (omega arith, (λ e. (omega arith, refl)), λ e. absurd (cc))
