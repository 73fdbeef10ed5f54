-- ===== src/Raw/Tests/Idle.antt =====
-- A trace with an idle loop, and the statistics of the filter.
use champsim_infra.Prelude.{◌+◌, ◌≡◌, refl, true, false, some, List, [], ◌∷◌, arith}
use champsim_infra.Raw.Filter.Framing.{Rec}
use champsim_infra.Raw.Filter.Machine.{FilterStats, initial, flush_rest}
use champsim_infra.Raw.Filter.Machine.Kept.{run}
use champsim_infra.Raw.Filter.Machine.Balance.{KernelHalts, run-balance}
use champsim_infra.Raw.Tests.{memory, stored, stored_laws, stored_fine, fresh}
use champsim_infra.Raw.Filter.Writer.{Keeps}
use champsim_infra.Raw.Filter.Writer.Over.{keeps_of}

abbrev kernel_rec : Rec
kernel_rec = record { priv = 1; is_hlt = false; bytes = 7 ∷ [] }

abbrev hlt_rec : Rec
hlt_rec = record { priv = 1; is_hlt = true; bytes = 8 ∷ [] }

abbrev user_rec : Rec
user_rec = record { priv = 0; is_hlt = false; bytes = 9 ∷ [] }

abbrev memory_keeps : Keeps memory
memory_keeps = keeps_of stored stored_laws stored_fine 0

abbrev recs : List Rec
recs = user_rec ∷ hlt_rec ∷ kernel_rec ∷ hlt_rec ∷ user_rec ∷ hlt_rec ∷ []

recs-KernelHalts : KernelHalts recs
recs-KernelHalts = (λ e. e, (λ e. refl, (λ e. refl, (λ e. refl, (λ e. e, (λ e. refl, tt))))))

run-balance_example :
    let s : FilterStats =
      (flush_rest memory (run memory memory_keeps recs (initial memory (some fresh)))).stats in
    (s.in_total ≡ 6) × (s.in_total ≡ s.out_total + s.idle_discarded)
run-balance_example =
    run-balance memory memory_keeps recs (some fresh) recs-KernelHalts (omega arith)
