-- ===== src/Agent/Instruction.antt =====
-- internal/agent/handler/chat.go: the instruction that a session for an article starts with.
use code_runner_backend.Prelude.{List, [], ◌∷◌, some}
use code_runner_backend.Prelude.Text.{Text}
use code_runner_backend.Agent.Chat.{ArticleCtx}
use code_runner_backend.Agent.Chat
use code_runner_backend.Prompt.Build.{ArticleContext, build, render}
use code_runner_backend.Prompt.Build

unfoldable pub to_prompt_blocks : List Chat.CodeBlock → List Build.CodeBlock
to_prompt_blocks [] = []
to_prompt_blocks (b ∷ bs) = record { language = b.language; code = b.code } ∷ to_prompt_blocks bs

unfoldable pub to_prompt_article_context : ArticleCtx → ArticleContext
unfolding to_prompt_blocks
to_prompt_article_context a = record {
  article_id = a.article_id;
  article_content = a.article_content;
  code_blocks = to_prompt_blocks a.code_blocks;
  focused_block_index = a.focused_block_index;
}

unfoldable pub build_instruction : ArticleCtx → Text
unfolding to_prompt_article_context
build_instruction a = render (build (some (to_prompt_article_context a)))
