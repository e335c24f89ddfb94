-- ===== src/Tests.antt =====
pub mod World
mod Types
mod K8sutil
mod Controller
mod Clientset
mod Informers
mod Startup
mod DeepCopy
mod OpenApi
mod Factories
mod Queue
