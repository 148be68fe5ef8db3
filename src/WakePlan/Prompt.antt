-- ===== src/WakePlan/Prompt.antt =====
-- runtime/wake_plan.go: what the model is told of a planning step.
use open_kael.WakePlan.{kind_name, WakeRequest, WakeRecord, Times}
use open_kael.Prelude.{some, none, if◌then◌else◌, String, Option, Bool}
use open_kael.Prelude.Text.{◌<>◌}

module _ {V : Type 0} (t : Times V) where
  abbrev step4_of : (can_act : Bool) → String
  step4_of can_act =
      if can_act
      then "This is the wake-up of an \"act\" time. Look everything up again. If the time you planned has come and still holds, call confirm_moment (the job is then done right now), and then call set_next_wake for the NEXT time (the next time the job should happen, or when to look for it). If something moved, do not call confirm_moment: just call set_next_wake with the new time."
      else "This is not the wake-up of an act time, so the job is not done now: just give the next wake-up."

  abbrev how_to_decide : (step4 : String) → String
  how_to_decide step4 =
      "\n"
      <> ("How to decide:\n"
          <> ("1. Find out when the thing the person's words refer to really happens, using your tools. Never answer from memory: dates and times you remember are often out of date, and they move. Times your tools return are usually UTC; convert carefully.\n"
              <> ("2. Work out the exact moment the job should happen from it (for example \"2 hours before\" a deadline is the deadline minus 2 hours). Check your sum. If the next one has already passed or is too close, use the one after it.\n"
                  <> ("3. Then call set_next_wake ONCE:\n"
                      <> ("   - kind \"act\": the exact moment to do the job. You will be woken then and must confirm it still holds, with fresh facts, before it is done.\n"
                          <> ("   - kind \"check\": a time to look again, because the moment isn't known yet or is far away. Choose it yourself: just before it might change, or soon after something is announced. Never sooner than an hour from now.\n"
                              <> ("   - at: the time with its offset, like 2026-10-25T08:30:00+01:00. Never more than 7 days ahead: if the moment is further off, set a \"check\" before then.\n"
                                  <> ("   - reason: one plain sentence the person will read, about THIS next wake-up only (never about what you are doing now), naming what you found, with times on the person's own clock ("
                                      <> (t.zone
                                          <> ("), for example \"The deadline is Saturday 10:30, so two hours before is 8:30.\"\n"
                                              <> ("4. "
                                                  <> (step4
                                                      <> ("\n"
                                                          <> ("5. If you cannot find out with the tools you have, call cannot_plan with one plain sentence for the person: what you couldn't find, and what you'd need from them.\n"
                                                            <> "Then call finish. Use plain words everywhere the person might read them; never mention tools, schedules or prompts."))))))))))))))

  abbrev earlier : WakeRequest → Option WakeRecord → String
  earlier req none = ""
  earlier req (some r) =
      "Earlier you planned to "
      <> (kind_name r.kind
          <> (" at "
              <> (t.local r.at
                  <> (" because: "
                      <> (r.reason
                          <> ("\n" <> (if req.due then "That time has now come.\n" else "")))))))

  -- `wakePrompt`.
  unfoldable pub wake_prompt : WakeRequest → (can_act : Bool) → String
  wake_prompt req can_act =
      "You decide WHEN a job should next happen. You do not do the job now.\n\nThe job: "
      <> (req.action
          <> ("\nWhen the person wants it: "
              <> (t.quote req.timing
                  <> ("\nRight now: "
                      <> (t.local req.now
                          <> (" ("
                              <> (t.zone
                                  <> ("), which is "
                                      <> (t.utc req.now
                                          <> (" UTC.\n"
                                              <> (earlier req req.last
                                                  <> how_to_decide (step4_of can_act))))))))))))
