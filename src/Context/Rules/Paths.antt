-- ===== src/Context/Rules/Paths.antt =====
-- The paths of the files with rules, context/mod.rs, `rule_file_candidates`.
use memix.Base.{String, List, [], ◌∷◌, number_key, text_key, pair_key, bool_key}

abbrev pub rule_paths : List String
rule_paths =
    ".cursorrules" ∷ ".cursor/rules" ∷ ".cursor/rules/global.mdc" ∷ ".cursor/rules/project.mdc"
    ∷ ".windsurfrules" ∷ ".windsurfrules-guard" ∷ ".github/copilot-instructions.md"
    ∷ ".vscode/settings.json" ∷ ".vscode/extensions.json" ∷ ".vscode/launch.json"
    ∷ ".vscode/tasks.json" ∷ ".vscode/cspell.json" ∷ ".cline/rules" ∷ ".cline/config.json"
    ∷ ".continue/config.json" ∷ ".continue/rules.md" ∷ ".zed/settings.json" ∷ ".zed/keymap.json"
    ∷ ".zed/tasks.json" ∷ ".idea/codeStyles/Project.xml" ∷ ".idea/codeStyles/codeStyleConfig.xml"
    ∷ ".idea/inspectionProfiles/Project_Default.xml" ∷ ".idea/runConfigurations"
    ∷ ".idea/jsLinters/eslint.xml" ∷ ".settings/org.eclipse.core.resources.prefs"
    ∷ ".settings/org.eclipse.jdt.core.prefs" ∷ ".settings/org.eclipse.jdt.ui.prefs" ∷ "CLAUDE.md"
    ∷ ".claude/instructions.md" ∷ ".claude/rules.md" ∷ ".claude/settings.json" ∷ ".cursorrules"
    ∷ ".cursor/rules/global.mdc" ∷ ".cursor/rules/code-style.mdc" ∷ ".cursor/rules/architecture.mdc"
    ∷ ".cursor/rules/testing.mdc" ∷ ".cursor/rules/documentation.mdc" ∷ ".windsurfrules"
    ∷ ".windsurf/config.json" ∷ ".windsurf/rules.md" ∷ ".antigravity/config.json"
    ∷ ".antigravity/rules.md" ∷ ".memix/rules.md" ∷ ".memix/config.toml" ∷ ".ai/rules.md"
    ∷ ".ai/config.json" ∷ ".aider.conf.yml" ∷ ".aider.conf.yaml" ∷ "CODING_STANDARDS.md"
    ∷ "STYLE_GUIDE.md" ∷ "CONTRIBUTING.md" ∷ ".github/CONTRIBUTING.md" ∷ "ARCHITECTURE.md"
    ∷ "ARCHITECTURE_DECISIONS.md" ∷ "ADR.md" ∷ "docs/architecture.md" ∷ "docs/decisions.md"
    ∷ "docs/ADR" ∷ "docs/adr" ∷ ".eslintrc" ∷ ".eslintrc.json" ∷ ".eslintrc.js" ∷ ".eslintrc.cjs"
    ∷ ".eslintrc.yaml" ∷ ".eslintrc.yml" ∷ "eslint.config.js" ∷ "eslint.config.mjs"
    ∷ "eslint.config.ts" ∷ ".prettierrc" ∷ ".prettierrc.json" ∷ ".prettierrc.js"
    ∷ ".prettierrc.yaml" ∷ ".prettierrc.yml" ∷ "prettier.config.js" ∷ ".prettierignore"
    ∷ "biome.json" ∷ "biome.jsonc" ∷ ".biome.json" ∷ "ruff.toml" ∷ ".ruff.toml" ∷ "pyproject.toml"
    ∷ "pyproject.toml" ∷ ".black" ∷ ".golangci.yml" ∷ ".golangci.yaml" ∷ "golangci.yml"
    ∷ "rustfmt.toml" ∷ ".rustfmt.toml" ∷ "clippy.toml" ∷ ".clippy.toml" ∷ "next.config.js"
    ∷ "next.config.ts" ∷ "next.config.mjs" ∷ "nuxt.config.ts" ∷ "nuxt.config.js"
    ∷ "svelte.config.js" ∷ "astro.config.mjs" ∷ "astro.config.ts" ∷ "vite.config.js"
    ∷ "vite.config.ts" ∷ "vite.config.mjs" ∷ "webpack.config.js" ∷ "webpack.config.ts"
    ∷ "tailwind.config.js" ∷ "tailwind.config.ts" ∷ "tailwind.config.mjs" ∷ "tsconfig.json"
    ∷ "tsconfig.build.json" ∷ "tsconfig.node.json" ∷ "tsconfig.web.json" ∷ "package.json"
    ∷ "pnpm-workspace.yaml" ∷ ".npmrc" ∷ ".yarnrc.yml" ∷ ".yarnrc" ∷ "bun.lockb" ∷ "Dockerfile"
    ∷ "docker-compose.yml" ∷ "docker-compose.override.yml" ∷ ".dockerignore" ∷ "Makefile"
    ∷ "makefile" ∷ "justfile" ∷ "Taskfile.yml" ∷ ".github/workflows/*.yml"
    ∷ ".github/workflows/*.yaml" ∷ ".github/CODEOWNERS" ∷ ".github/PULL_REQUEST_TEMPLATE.md"
    ∷ ".gitlab-ci.yml" ∷ ".gitlab/merge_request_templates/*.md" ∷ ".circleci/config.yml"
    ∷ "bitbucket-pipelines.yml" ∷ "azure-pipelines.yml" ∷ "Jenkinsfile" ∷ ".env.example"
    ∷ ".env.template" ∷ ".env.sample" ∷ "env.example" ∷ "env.sample" ∷ "vitest.config.ts"
    ∷ "vitest.config.js" ∷ "jest.config.js" ∷ "jest.config.ts" ∷ "playwright.config.ts"
    ∷ "cypress.config.ts" ∷ "README.md" ∷ "README.rst" ∷ ".github/README.md" ∷ "docs/README.md"
    ∷ "CHANGELOG.md" ∷ "LICENSE" ∷ "LICENSE.md" ∷ ".rules" ∷ ".rules/*.md" ∷ ".rules/*.mdc"
    ∷ ".rules/*.toml" ∷ []
