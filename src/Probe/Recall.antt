-- ===== src/Probe/Recall.antt =====
-- Which probes lead to a recall.
use context_swarm_memory.Prelude.{ℕ, ◌≤◌, ◌≡◌, true, arith}
use context_swarm_memory.Probe.{ProbeResult, probe_qualifies_for_recall, score_probe}

-- A probe that leads to a recall still does when only its confidence is greater, and its score is no
-- lower then.
pub probe_qualifies_for_recall_mono :
    (p : ProbeResult) (recall_confidence_min confidence : ℕ)
    → p.confidence ≤ confidence
    → probe_qualifies_for_recall p recall_confidence_min ≡ true
    → (probe_qualifies_for_recall (record p { confidence = confidence }) recall_confidence_min
        ≡ true)
      × (score_probe p ≤ score_probe (record p { confidence = confidence }))
unfolding probe_qualifies_for_recall score_probe
probe_qualifies_for_recall_mono p recall_confidence_min confidence h q =
    (ground arith, omega (arith, h))
