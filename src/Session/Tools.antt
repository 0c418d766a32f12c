-- ===== src/Session/Tools.antt =====
-- The tool settings and limits of harness/session/constants.py and harness/utils/constants.py.
use de_framework.Text.{Text, codes}
use de_framework.Prelude.{ℕ, List, ◌∷◌, []}

abbrev pub local_tools : List Text
local_tools =
    codes "Bash" ∷ codes "Read" ∷ codes "Write" ∷ codes "Edit" ∷ codes "Glob" ∷ codes "Grep" ∷ []

abbrev pub disallowed_tool_names : List Text
disallowed_tool_names =
    codes "WebSearch"
    ∷ codes "WebFetch"
    ∷ codes "Task"
    ∷ codes "Agent"
    ∷ codes "Workflow"
    ∷ codes "Skill"
    ∷ codes "SlashCommand"
    ∷ codes "Artifact"
    ∷ codes "SendMessage"
    ∷ codes "SendUserFile"
    ∷ codes "TaskCreate"
    ∷ codes "TaskGet"
    ∷ codes "TaskList"
    ∷ codes "TaskUpdate"
    ∷ codes "TaskOutput"
    ∷ codes "TaskStop"
    ∷ codes "CronCreate"
    ∷ codes "CronDelete"
    ∷ codes "CronList"
    ∷ codes "ScheduleWakeup"
    ∷ codes "Monitor"
    ∷ codes "PushNotification"
    ∷ codes "RemoteTrigger"
    ∷ codes "EnterWorktree"
    ∷ codes "ExitWorktree"
    ∷ codes "EnterPlanMode"
    ∷ codes "ExitPlanMode"
    ∷ codes "EndConversation"
    ∷ codes "ToolSearch"
    ∷ codes "AskUserQuestion"
    ∷ codes "NotebookEdit"
    ∷ codes "PowerShell"
    ∷ []

abbrev pub bash_denials : List Text
bash_denials =
    codes "Bash(curl:*)"
    ∷ codes "Bash(wget:*)"
    ∷ codes "Bash(claude:*)"
    ∷ codes "Bash(git:*)"
    ∷ codes "Bash(ssh:*)"
    ∷ codes "Bash(scp:*)"
    ∷ codes "Bash(sftp:*)"
    ∷ codes "Bash(ftp:*)"
    ∷ codes "Bash(rsync:*)"
    ∷ codes "Bash(nc:*)"
    ∷ codes "Bash(ncat:*)"
    ∷ codes "Bash(telnet:*)"
    ∷ codes "Bash(pip install:*)"
    ∷ codes "Bash(pip3 install:*)"
    ∷ codes "Bash(pip download:*)"
    ∷ codes "Bash(npm install:*)"
    ∷ codes "Bash(npm i:*)"
    ∷ codes "Bash(apt:*)"
    ∷ codes "Bash(apt-get:*)"
    ∷ codes "Bash(brew:*)"
    ∷ codes "Bash(conda install:*)"
    ∷ []

abbrev pub tool_policy_args : List Text
tool_policy_args = codes "disallowedTools" ∷ codes "disallowed-tools" ∷ []

abbrev pub muse_prefix : Text
muse_prefix = codes "muse-"

abbrev pub max_turns_per_phase : ℕ
max_turns_per_phase = 128

abbrev pub provider_min_task_budget_tokens : ℕ
provider_min_task_budget_tokens = 20000
