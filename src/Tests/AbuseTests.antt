-- ===== src/Tests/AbuseTests.antt =====
-- Runs of internal/ban and internal/ratelimit.
use whisper_chat.Prelude.{
  ℕ, zero, suc, ◌-◌, ◌≤◌, ◌≡◌, refl, true, false, List, [], ◌∷◌, ◌++◌, arith, ltb, if◌then◌else◌,
  nat_eq, text_eq, list_eq,
}
use whisper_chat.Ban.Offenses.{total_gap, Offense, commit_all, outcomes, commit_all-outcomes}
use whisper_chat.Ratelimit.Window.{sum, requests, numbered, allow_windows}
use whisper_chat.Redis.Memory.{Memory, fresh, memory, sound_memory, sound_memory_up}
use whisper_chat.Redis.Commands.{text}
use whisper_chat.Redis.Client.{ask}
use whisper_chat.Ratelimit.{Rule, rule_message, allow, remaining_requests, limit_key}
use whisper_chat.Ratelimit.Failures.{refused_over_limit, allow-remaining, used}
use whisper_chat.Ban.{is_banned, ban, unban, not_banned}
use whisper_chat.Ban.Expiry.{is_banned-ban, is_banned-unban}

abbrev two_a_day : Rule
two_a_day = record { prefix = "rl:test:"; limit = 2; window = 10 }

allow_windows_example :
    requests sound_memory sound_memory_up "u" two_a_day
      (0 ∷ (3 ∷ 3 ∷ []) ++ 5 ∷ (1 ∷ []))
      (fresh [])
    ≡ numbered 2 1 3 ++ numbered 2 1 2
allow_windows_example =
    allow_windows sound_memory sound_memory_up "u" two_a_day 0 5 (3 ∷ 3 ∷ []) (1 ∷ []) (fresh [])
      refl (unfold sum in omega arith) (unfold sum in omega arith) (unfold sum in omega arith)

-- Six messages in one second.
abbrev after_requests : ℕ → Memory
after_requests zero = fresh []
after_requests (suc n) = (allow memory "u" rule_message (after_requests n)).1

sixth_refused : (allow memory "u" rule_message (after_requests 5)).0.allowed ≡ false
unfolding allow ask
sixth_refused = refl

refused_over_limit_example :
    (memory.up (after_requests 5) ≡ true)
    × (5 ≤ used (memory.value (after_requests 5) (limit_key rule_message "u")))
refused_over_limit_example =
    refused_over_limit memory "u" rule_message (after_requests 5) sixth_refused

abbrev broken : Memory
broken = fresh (false ∷ [])

abbrev sound_requests : ℕ → Memory
sound_requests zero = fresh []
sound_requests (suc n) = (allow sound_memory "u" rule_message (sound_requests n)).1

two_left : (remaining_requests sound_memory "u" rule_message (sound_requests 3)).0 ≡ (2, false)
unfolding remaining_requests allow ask
two_left = refl

allow-remaining_example :
    (allow sound_memory "u" rule_message
      (remaining_requests sound_memory "u" rule_message (sound_requests 3)).1).0.allowed
    ≡ ltb 0 2
allow-remaining_example =
    allow-remaining sound_memory sound_memory_up "u" rule_message 2 (sound_requests 3) two_left

is_banned-ban_example :
    (is_banned sound_memory "f"
      (sound_memory.elapse 600 (ban sound_memory "f" 900 (text "spam") (fresh [])).1)).0
    ≡ (if nat_eq.beq 900 0
        then record { banned = true; seconds = 0; reason = text "spam"; failed = false }
        else if ltb 600 900
        then record { banned = true; seconds = 900 - 600; reason = text "spam"; failed = false }
        else not_banned false)
is_banned-ban_example =
    is_banned-ban sound_memory sound_memory_up "f" 900 600 (text "spam") (fresh [])

abbrev in_ban : Memory
in_ban = (ban sound_memory "f" 900 (text "spam") (fresh [])).1

is_banned-unban_example :
    (is_banned sound_memory "f" (unban sound_memory "f" in_ban).1).0 ≡ not_banned false
is_banned-unban_example = is_banned-unban sound_memory sound_memory_up "f" in_ban

abbrev first_offense : Offense
first_offense = Offense.reports 5 (text "harassment")

abbrev next_offenses : List Offense
next_offenses =
    Offense.escalates 60 (text "spam")
    ∷ Offense.reports 3600 (text "spam")
    ∷ Offense.escalates 1 (text "other")
    ∷ []

commit_all-outcomes_example :
    commit_all sound_memory "f" (first_offense ∷ next_offenses) (fresh [])
    ≡ outcomes (first_offense ∷ next_offenses) 1
commit_all-outcomes_example =
    commit_all-outcomes sound_memory sound_memory_up "f" first_offense next_offenses (fresh []) refl
      (unfold total_gap in omega arith)
