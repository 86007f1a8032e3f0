-- ===== src/Gateway/Payload/Display.antt =====
-- What payload.ts shows of an event: the title and the body of a notification.
use opencode_notify_hub.Shared.{
  ℕ, ◌-◌, Bool, true, false, not, ◌&&◌, ◌||◌, Option, none, some, List, [], ◌∷◌, ◌++◌, map, ltb,
  ◌==◌, if◌then◌else◌, length, take,
}
use opencode_notify_hub.Gateway.Payload.Texts.{
  Text, unknown, untitled, done, task_failed, task_stopped, needs_answer, needs_permission,
  needs_action, in_progress, action_handled, separator, elapsed_before, elapsed_after,
  options_before, between_options, more_before, more_after, asks_permission, open_code, line_feed,
}
use opencode_notify_hub.Gateway.Payload.Event.{
  completed, failed, stopped, Choice, Question, Payload, terminal, questions, permission,
  provider_action, heartbeat, action_resolved, NotifyEvent, PushContent, CompactionCaps, Host,
  truncate,
}

abbrev pub has_backslash : Text → Bool
has_backslash [] = false
has_backslash (c ∷ cs) = (c == 92) || has_backslash cs

abbrev pub is_empty : Text → Bool
is_empty [] = true
is_empty (c ∷ cs) = false

abbrev pub join : Text → List Text → Text
join between [] = []
join between (s ∷ []) = s
join between (s ∷ t ∷ ts) = s ++ between ++ join between (t ∷ ts)

module _ (h : Host) where
  unfoldable pub display_directory : NotifyEvent → Text
  display_directory e =
      let is_win32 = has_backslash e.directory in
      let label = h.base_name is_win32 e.directory in
      if not (is_empty label)
        && not (h.same label (46 ∷ []))
        && not (h.same label ((if is_win32 then 92 else 47) ∷ []))
      then label
      else unknown

  unfoldable pub display_machine : NotifyEvent → Text
  display_machine e = if not (is_empty (h.trim e.machine)) then h.trim e.machine else unknown

  unfoldable pub display_session : NotifyEvent → Text
  display_session e =
      let title = h.trim e.session_title in
      if not (is_empty title) && not (h.same title e.session_id) then title else untitled

  unfoldable pub status_label : Payload → Text
  status_label (terminal completed elapsed summary) = done
  status_label (terminal failed elapsed summary) = task_failed
  status_label (terminal stopped elapsed summary) = task_stopped
  status_label (questions qs) = needs_answer
  status_label (permission name summary) = needs_permission
  status_label (provider_action rest message) = needs_action
  status_label heartbeat = in_progress
  status_label action_resolved = action_handled

  abbrev pub option_line : Option (List Choice) → List Text
  option_line none = []
  option_line (some []) = []
  option_line (some (c ∷ cs)) =
      (options_before ++ join between_options (map (λ x. x.label) (c ∷ cs))) ∷ []

  abbrev pub question_lines : List Question → List Text
  question_lines [] = []
  question_lines (q ∷ qs) = q.question ∷ (option_line q.options ++ question_lines qs)

  unfoldable pub question_body : List Question → Text
  question_body qs =
      let remaining = length qs - length (take 3 qs) in
      join line_feed (
        question_lines (take 3 qs)
        ++ (if ltb 0 remaining
            then (more_before ++ h.decimal remaining ++ more_after) ∷ []
            else []))

  unfoldable pub full_title : NotifyEvent → Text
  unfolding display_directory display_machine display_session status_label
  full_title e =
      display_machine e
      ++ separator
      ++ display_directory e
      ++ separator
      ++ display_session e
      ++ separator
      ++ status_label e.payload

  unfoldable pub full_body : Payload → Text
  unfolding question_body
  full_body (terminal outcome elapsed none) = elapsed_before ++ h.decimal elapsed ++ elapsed_after
  full_body (terminal outcome elapsed (some summary)) =
      elapsed_before ++ h.decimal elapsed ++ elapsed_after ++ line_feed ++ summary
  full_body (questions qs) = question_body qs
  full_body (permission name summary) = asks_permission ++ name ++ line_feed ++ summary
  full_body (provider_action rest message) = message
  full_body _ = []

  abbrev pub is_pushable : Payload → Bool
  is_pushable heartbeat = false
  is_pushable action_resolved = false
  is_pushable _ = true

  -- `describeEvent`
  unfoldable pub describe_event : NotifyEvent → CompactionCaps → Text × Text
  unfolding full_title full_body
  describe_event e caps =
      if is_pushable e.payload
      then (truncate (full_title e) caps.title, truncate (full_body e.payload) caps.body)
      else (open_code, [])

  -- The content of one pass.
  unfoldable pub content_of : NotifyEvent → CompactionCaps → PushContent
  unfolding describe_event
  content_of e caps = record {
    title = (describe_event e caps).0;
    body = (describe_event e caps).1;
    data_event = h.stringify e;
  }

  abbrev pub measure_message : PushContent → ℕ
  measure_message c = h.message_bytes c.title c.body c.data_event
