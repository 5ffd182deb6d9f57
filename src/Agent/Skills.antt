-- ===== src/Agent/Skills.antt =====
-- The skills loop of `runAgent` in cmd/agent/main.go.
use monitor_agent.Base.{ℕ, Option, List, Text}
use monitor_agent.Collector.Skills.{DirEntry, SkillItem, scan_skills}
use monitor_agent.Uploader.{skills_request}

-- the case `<-ticker.C`: what is uploaded, if anything; an error of the upload is only logged.
unfoldable pub tick :
    (Text → Text → Text)
    → (Text → Option (List DirEntry))
    → ℕ
    → List Text
    → Option (ℕ × List SkillItem)
unfolding skills_request scan_skills
tick join_path read_dir now paths = skills_request now (scan_skills join_path read_dir paths)
