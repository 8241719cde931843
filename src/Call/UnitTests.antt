-- ===== src/Call/UnitTests.antt =====
-- The unit tests of src/call.rs, under their names, and that they pass on the model.
use uds_policy.Common.{◌≡◌, refl, Bool, true, false, ◌&&◌, Option, none, some, Text, codes, text_eq}
use uds_policy.Call
use uds_policy.Call.{Call, Authorization, unprivileged, gated, action, policy, unprivileged_tag}

-- `CHANGE` and `READ`
abbrev change : Call
unfolding gated
change = gated (codes "Thing") (codes "Change") (codes "org.example.thing.change")

abbrev read : Call
unfolding unprivileged
read = unprivileged (codes "Thing") (codes "Read")

-- `assert_eq!` of two tags, and of two optional texts
same_tag : Authorization → Authorization → Bool
unfolding text_eq
same_tag unprivileged_tag unprivileged_tag = true
same_tag (policy a) (policy b) = text_eq a b
same_tag _ _ = false

same_text : Option Text → Option Text → Bool
unfolding text_eq
same_text none none = true
same_text (some a) (some b) = text_eq a b
same_text _ _ = false

a_call_renders_as_its_contracts_own_name : Bool
unfolding text_eq Call.display
a_call_renders_as_its_contracts_own_name =
    text_eq (Call.display change) (codes "Thing.Change")
    && text_eq (Call.display (unprivileged (codes "com.example.Thing") (codes "Read")))
        (codes "com.example.Thing.Read")

the_constructors_agree_with_the_tag_they_set : Bool
unfolding same_tag same_text action
the_constructors_agree_with_the_tag_they_set =
    same_tag change.authorization (policy (codes "org.example.thing.change"))
    && same_text (action change) (some (codes "org.example.thing.change"))
    && same_tag read.authorization unprivileged_tag
    && same_text (action read) none

unit_tests_pass :
    (a_call_renders_as_its_contracts_own_name ≡ true)
    × (the_constructors_agree_with_the_tag_they_set ≡ true)
unfolding a_call_renders_as_its_contracts_own_name the_constructors_agree_with_the_tag_they_set
    gated unprivileged
unit_tests_pass = (refl, refl)
