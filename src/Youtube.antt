-- ===== src/Youtube.antt =====
-- app/providers/youtube.py: the provider that runs yt-dlp.
pub mod Attempts
pub mod Command
pub mod Url
mod Tests
