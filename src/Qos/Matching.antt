-- ===== src/Qos/Matching.antt =====
-- The compatibility rules of src/qos.cpp.
use mdds.Base.{◌≤◌, ◌≡◌, ◌↔◌, true, not, ◌&&◌, ◌==◌, arith}
use mdds.Qos.{QosProfile, reliable, best_effort, qos_valid, qos_compatible, qos_accepted_by_reader}

valid_enums : (q : QosProfile) → qos_valid q ≡ true → (q.reliability ≤ 1) × (q.durability ≤ 1)
unfolding qos_valid
valid_enums q h = ground arith

-- Between valid profiles the requested/offered rule is an order: the reader asks for no more
-- reliability and no more durability than the writer offers.
pub qos_compatible_iff :
    (requested offered : QosProfile)
    → qos_valid requested ≡ true
    → qos_valid offered ≡ true
    → (qos_compatible requested offered ≡ true) ↔ (
        (requested.reliability ≤ offered.reliability) × (requested.durability ≤ offered.durability))
unfolding qos_compatible
qos_compatible_iff r o hr ho = ground (arith, valid_enums r hr, valid_enums o ho)

-- The strict view accepts a pair exactly when the lenient one does and the pair is not a reliable
-- reader with a best-effort writer.
pub qos_compatible-accepted :
    (requested offered : QosProfile)
    → qos_compatible requested offered ≡ (
        qos_accepted_by_reader requested offered
        && not (requested.reliability == reliable && offered.reliability == best_effort))
unfolding qos_compatible qos_accepted_by_reader
qos_compatible-accepted r o = ground arith
