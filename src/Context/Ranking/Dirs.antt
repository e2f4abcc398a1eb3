-- ===== src/Context/Ranking/Dirs.antt =====
-- The directories of generated files, constants.rs.
use memix.Base.{String, List, [], ◌∷◌, number_key, text_key, pair_key, bool_key}

abbrev pub generated_dirs : List String
generated_dirs =
    "/node_modules/" ∷ "/.next/" ∷ "/dist/" ∷ "/build/" ∷ "/out/" ∷ "/.output/" ∷ "/.nuxt/"
    ∷ "/.svelte-kit/" ∷ "/.astro/" ∷ "/.solid/" ∷ "/.qwik/" ∷ "/.angular/" ∷ "/.vuepress/dist/"
    ∷ "/.vitepress/dist/" ∷ "/.docusaurus/" ∷ "/.gatsby/" ∷ "/.redwood/" ∷ "/.blitz/" ∷ "/.expo/"
    ∷ "/.turbo/" ∷ "/.parcel-cache/" ∷ "/.vite/" ∷ "/.rollup.cache/" ∷ "/.esbuild/" ∷ "/coverage/"
    ∷ "/.nyc_output/" ∷ "/.jest-cache/" ∷ "/.vitest/" ∷ "/.playwright/" ∷ "/.cypress/"
    ∷ "/.storybook-static/" ∷ "/.storybook-dist/" ∷ "/storybook-static/" ∷ "/.fusebox/"
    ∷ "/.webpack/" ∷ "/.cache/" ∷ "/.temp/" ∷ "/.tmp/" ∷ "/__pycache__/" ∷ "/.pytest_cache/"
    ∷ "/.mypy_cache/" ∷ "/.ruff_cache/" ∷ "/.tox/" ∷ "/.nox/" ∷ "/.venv/" ∷ "/venv/" ∷ "/env/"
    ∷ "/.env/" ∷ "/site-packages/" ∷ "/.eggs/" ∷ "/.egg-info/" ∷ "/dist-info/" ∷ "/htmlcov/"
    ∷ "/.ipynb_checkpoints/" ∷ "/.jupyter/" ∷ "/target/" ∷ "/target-dir/" ∷ "/.cargo/registry/"
    ∷ "/.cargo/git/" ∷ "/vendor/" ∷ "/.bin/" ∷ "/target/" ∷ "/build/" ∷ "/out/" ∷ "/.gradle/"
    ∷ "/.mvn/" ∷ "/.m2/" ∷ "/.idea/" ∷ "/.vscode/" ∷ "/.settings/" ∷ "/.project/" ∷ "/.classpath/"
    ∷ "/bin/" ∷ "/cmake-build-" ∷ "/CMakeFiles/" ∷ "/CMakeCache.txt" ∷ "/.cmake/" ∷ "/.ninja_deps"
    ∷ "/.ninja_log" ∷ "/build/" ∷ "/.objs/" ∷ "/.deps/" ∷ "/.dSYM/" ∷ "/.su.o" ∷ "/bin/" ∷ "/obj/"
    ∷ "/.vs/" ∷ "/packages/" ∷ "/vendor/" ∷ "/.phpunit.cache/" ∷ "/.phpcs-cache/"
    ∷ "/.phpstorm.meta.php" ∷ "/vendor/bundle/" ∷ "/.gem/" ∷ "/.ruby-lsp/" ∷ "/.rspec_status/"
    ∷ "/.build/" ∷ "/.swiftpm/" ∷ "/DerivedData/" ∷ "/Pods/" ∷ "/Carthage/" ∷ "/.prisma/"
    ∷ "/.drizzle/" ∷ "/.sqlx/" ∷ "/.sqlc/" ∷ "/.lancedb/" ∷ "/.terraform/" ∷ "/.serverless/"
    ∷ "/.cdk.staging/" ∷ "/.pulumi/" ∷ "/.chalice/" ∷ "/.sam/" ∷ "/.changeset/" ∷ "/.yarn/"
    ∷ "/.pnp.cjs/" ∷ "/.nx/" ∷ "/.rush/" ∷ "/.lage/" ∷ "/.DS_Store/" ∷ "/Thumbs.db/"
    ∷ "/.Spotlight-V100/" ∷ "/.Trashes/" ∷ "/.fseventsd/" ∷ "/.TemporaryItems/" ∷ "/.log/"
    ∷ "/logs/" ∷ "/tmp/" ∷ "/temp/" ∷ "/.temp/" ∷ "/.backup/" ∷ "/.old/" ∷ "/.archive/" ∷ "/.swp/"
    ∷ "/.swo/" ∷ "/.swn/" ∷ []
