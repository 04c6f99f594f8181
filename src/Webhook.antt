-- ===== src/Webhook.antt =====
-- The admission webhooks (internal/webhook/v2alpha1): injection of the APM agents into pods, and
-- validation of the WhatapAgent resource.
pub mod Names
pub mod Types
pub mod Selector
pub mod Injector
pub mod InitContainer
pub mod Patch
pub mod Defaulter
pub mod Validator
