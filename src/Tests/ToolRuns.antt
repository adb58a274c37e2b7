-- ===== src/Tests/ToolRuns.antt =====
-- An answer that follows the schema of the tool.
use solprobe.Prelude.{◌≡◌, refl, true, none, [], ℕ, ◌∷◌}
use solprobe.Prelude.Dict.{get}
use solprobe.Models.Json.{Members, text, number, array, object, nil, cons, end, member, members}
use solprobe.Diagnosis.Agent.Parsing.{Response, tool_input, parse_response}
use solprobe.Diagnosis.Tool.{diagnosis_tool, conforms}
use solprobe.Diagnosis.Tool.Conforming.{Completed, parse_response-Completed}
use solprobe.Tests.AgentRuns.{millionths, tools, spike, times}

abbrev evidence : Members ℕ
evidence =
    member "metric" (text "loss")
      (member "value" (text "9.5") (member "context" (text "step 40") end))

abbrev action : Members ℕ
action = member "action" (text "rollback_lr") (
    member "params" (object (member "factor" (number 500000) end))
      (member "urgency" (text "soon") end))

abbrev submitted : Members ℕ
submitted = member "root_cause" (text "learning_rate_issue") (
    member "confidence" (number 900000) (
      member "reasoning" (text "a spike") (
        member "evidence_chain" (array (cons (object evidence) nil))
          (member "recommended_action" (object action) end))))

abbrev answer : Response ℕ
answer = record {
  model = none;
  content =
      record { kind = "text"; name = ""; input = [] }
      ∷ record { kind = "tool_use"; name = "submit_diagnosis"; input = members submitted }
      ∷ [];
}

submitted-conforms : conforms millionths (diagnosis_tool millionths) (object submitted) ≡ true
unfolding conforms get
submitted-conforms = refl

parse_response-Completed_example :
    Completed millionths (parse_response millionths tools.reader "m" (times 1000) "d1" spike answer)
unfolding tool_input
parse_response-Completed_example =
    parse_response-Completed millionths tools.reader "m" (times 1000) "d1" spike answer submitted
      (λ x. refl) refl submitted-conforms
